-- ===== src/GlobalPatterns/Latest.antt =====
-- The last row of each id, for effective_patterns of servers/shared/contracts.py.
use youk.Prelude.Memᴰ
use youk.Prelude.{
  Option, String, true, false, none, some, List, [], ◌∷◌, ◌++◌, ◌==◌, if◌then◌else◌, select-mem,
  mem-select, ◌≡◌, ◌≢◌, ◌↔◌, inl, inr, refl, sym, ap, ◌∙◌, subst, arith, eq_iff, Memᴰ, Bool-cases,
}
use youk.GlobalPatterns.Entry.{PatternEntry}
use youk.GlobalPatterns.Rows.{put_row, put_rows, latest_rows, effective_patterns, row_with}

pub row_with-put_row :
    (k : String) (r : PatternEntry) (rows : List PatternEntry)
    → row_with k (put_row r rows) ≡ (if r.id == k then some r else row_with k rows)
unfolding row_with put_row
row_with-put_row k r [] = refl
row_with-put_row k r (x ∷ rows) =
    ground (arith, eq_iff x.id r.id, eq_iff x.id k, eq_iff r.id k, row_with-put_row k r rows)

pub row_with-mem :
    (k : String) (rows : List PatternEntry) {r : PatternEntry}
    → row_with k rows ≡ some r
    → Memᴰ r rows × (r.id ≡ k)
unfolding row_with
row_with-mem k [] e = cc e
row_with-mem k (x ∷ rows) {r} e = elim (Bool-cases (x.id == k)) [
  | inl here ↦
      let e' : some x ≡ some r = rw here at e in
      let same : x ≡ r = cc e' in
      (Memᴰ.head (sym same), ap (λ (y : PatternEntry). y.id) (sym same) ∙ (eq_iff x.id k).0 here)
  | inr away ↦ let (i, h) = row_with-mem k rows (rw away at e) in (Memᴰ.tail i, h)
]

-- Each id once.
HasOnce : List PatternEntry → Type 0
HasOnce [] = Unit
HasOnce (r ∷ rows) = (row_with r.id rows ≡ none) × HasOnce rows

HasOnce-put_row :
    (r : PatternEntry) (rows : List PatternEntry) → HasOnce rows → HasOnce (put_row r rows)
unfolding put_row HasOnce row_with
HasOnce-put_row r [] once = (refl, tt)
HasOnce-put_row r (x ∷ rows) (absent, once) = elim (Bool-cases (x.id == r.id)) [
  | inl here ↦
      let e = (eq_iff x.id r.id).0 here in
      rw here (subst (λ k. row_with k rows ≡ none) e absent, once)
  | inr away ↦ rw away (
    ground (arith, eq_iff r.id x.id, eq_iff x.id r.id, absent, row_with-put_row x.id r rows),
    HasOnce-put_row r rows once,
  )
]

HasOnce-put_rows :
    (rows latest : List PatternEntry) → HasOnce latest → HasOnce (put_rows rows latest)
unfolding put_rows
HasOnce-put_rows [] latest once = once
HasOnce-put_rows (r ∷ rows) latest once =
    HasOnce-put_rows rows (put_row r latest) (HasOnce-put_row r latest once)

HasOnce-latest_rows : (rows : List PatternEntry) → HasOnce (latest_rows rows)
unfolding latest_rows HasOnce
HasOnce-latest_rows rows = HasOnce-put_rows rows [] tt

row_with-none :
    (k : String) (rows : List PatternEntry) {r : PatternEntry}
    → row_with k rows ≡ none
    → Memᴰ r rows
    → r.id ≢ k
unfolding row_with
row_with-none k [] e i = elim i [ ]
row_with-none k (x ∷ rows) {r} e (Memᴰ.head h) = λ same.
    let here : (x.id == k) ≡ true =
      (eq_iff x.id k).1 (ap (λ (y : PatternEntry). y.id) (sym h) ∙ same) in
    let clash : some x ≡ none = rw here at e in cc clash
row_with-none k (x ∷ rows) e (Memᴰ.tail i) = elim (Bool-cases (x.id == k)) [
  | inl here ↦ let clash : some x ≡ none = rw here at e in cc clash
  | inr away ↦ row_with-none k rows (rw away at e) i
]

mem-row_with :
    (rows : List PatternEntry) {r : PatternEntry}
    → HasOnce rows
    → Memᴰ r rows
    → row_with r.id rows ≡ some r
unfolding row_with HasOnce
mem-row_with [] once i = elim i [ ]
mem-row_with (x ∷ rows) {r} (absent, once) (Memᴰ.head h) =
    let here : (x.id == r.id) ≡ true =
      (eq_iff x.id r.id).1 (ap (λ (y : PatternEntry). y.id) (sym h)) in
    rw here (ap some (sym h))
mem-row_with (x ∷ rows) {r} (absent, once) (Memᴰ.tail i) =
    let other = row_with-none x.id rows absent i in
    let away : (x.id == r.id) ≡ false = ground (arith, eq_iff x.id r.id) in
    rw away (mem-row_with rows once i)

pub put_rows-append :
    (xs ys latest : List PatternEntry)
    → put_rows (xs ++ ys) latest ≡ put_rows ys (put_rows xs latest)
unfolding put_rows
put_rows-append [] ys latest = refl
put_rows-append (x ∷ xs) ys latest = put_rows-append xs ys (put_row x latest)

-- A row is in effect when it is the last of its id, and not retired.
pub effective_iff :
    (r : PatternEntry) (store : List PatternEntry)
    → Memᴰ r (effective_patterns store)
      ↔ ((row_with r.id (latest_rows store) ≡ some r) × (r.status ≢ "retired"))
unfolding effective_patterns
effective_iff r store = (
  λ i.
      let (j, live) = select-mem _ (latest_rows store) i in
      (
        mem-row_with (latest_rows store) (HasOnce-latest_rows store) j,
        λ e. let h = (eq_iff r.status "retired").1 e in cc (h, live),
      ),
  λ (found, live).
      mem-select _ (latest_rows store) (row_with-mem r.id (latest_rows store) found).0
        (ground (arith, eq_iff r.status "retired")),
)

-- The last row of an id, the rows before it and the rows after it.
pub record LastOf (id : String) (rows : List PatternEntry) (row : PatternEntry) : Type 0 where
  pub before : List PatternEntry
  pub after : List PatternEntry
  pub split : rows ≡ before ++ row ∷ after
  pub named : row.id ≡ id
  pub last : (e : PatternEntry) → Memᴰ e after → e.id ≢ id

-- What reading the rows in order makes of an id.
data Reads (id : String) (rows latest : List PatternEntry) : Option PatternEntry → Type 0 where
  reads_last : (row : PatternEntry) → LastOf id rows row → Reads id rows latest (some row)
  reads_before :
      ((e : PatternEntry) → Memᴰ e rows → e.id ≢ id) → Reads id rows latest (row_with id latest)

LastOf-cons :
    {id : String} {rows : List PatternEntry} {row : PatternEntry} (r : PatternEntry)
    → LastOf id rows row
    → LastOf id (r ∷ rows) row
LastOf-cons r l = record {
  before = r ∷ l.before;
  after = l.after;
  split = ap (λ xs. r ∷ xs) l.split;
  named = l.named;
  last = l.last;
}

Reads-cons :
    (id : String) (r : PatternEntry) (rows latest : List PatternEntry) (o : Option PatternEntry)
    → Reads id rows (put_row r latest) o
    → Reads id (r ∷ rows) latest o
Reads-cons id r rows latest _ (reads_last row l) = reads_last row (LastOf-cons r l)
Reads-cons id r rows latest _ (reads_before none_later) =
    subst (Reads id (r ∷ rows) latest) (sym (row_with-put_row id r latest))
      (elim (Bool-cases (r.id == id)) [
        | inl here ↦ rw here (
            reads_last r (record {
              before = [];
              after = rows;
              split = refl;
              named = (eq_iff r.id id).0 here;
              last = none_later;
            }))
        | inr away ↦ rw away (
            reads_before λ e i. elim (Memᴰ.cases_cons i) [
              | inl same ↦ λ named.
                  let here =
                    (eq_iff r.id id).1 (ap (λ (x : PatternEntry). x.id) (sym same) ∙ named) in
                  cc (here, away)
              | inr j ↦ none_later e j
            ])
      ])

put_rows-Reads :
    (id : String) (rows latest : List PatternEntry)
    → Reads id rows latest (row_with id (put_rows rows latest))
unfolding put_rows
put_rows-Reads id [] latest = reads_before λ e i. elim i [ ]
put_rows-Reads id (r ∷ rows) latest =
    Reads-cons id r rows latest (row_with id (put_rows rows (put_row r latest)))
      (put_rows-Reads id rows (put_row r latest))

Reads-LastOf :
    {id : String} {store : List PatternEntry} {row : PatternEntry} (o : Option PatternEntry)
    → Reads id store [] o
    → o ≡ some row
    → LastOf id store row
unfolding row_with
Reads-LastOf {id} {store} _ (reads_last r l) e = subst (LastOf id store) (cc e) l
Reads-LastOf _ (reads_before h) e = cc e

Reads-absent :
    {id : String} {store : List PatternEntry} (o : Option PatternEntry)
    → Reads id store [] o
    → o ≡ none
    → (e : PatternEntry) → Memᴰ e store
    → e.id ≢ id
unfolding row_with
Reads-absent _ (reads_last r l) e = cc e
Reads-absent _ (reads_before h) e = h

-- The latest row of an id is the last of the store.
pub latest_rows-LastOf :
    (id : String) (store : List PatternEntry) {row : PatternEntry}
    → row_with id (latest_rows store) ≡ some row
    → LastOf id store row
unfolding latest_rows
latest_rows-LastOf id store e = Reads-LastOf _ (put_rows-Reads id store []) e

-- There is none only when no row of the store has the id.
pub latest_rows-none :
    (id : String) (store : List PatternEntry)
    → row_with id (latest_rows store) ≡ none
    → (e : PatternEntry) → Memᴰ e store
    → e.id ≢ id
unfolding latest_rows
latest_rows-none id store e = Reads-absent _ (put_rows-Reads id store []) e
