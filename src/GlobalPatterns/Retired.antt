-- ===== src/GlobalPatterns/Retired.antt =====
-- What retiring a pattern does to the patterns in effect, for global_contracts.py.
use youk.Prelude.{
  String, true, false, some, List, [], ◌∷◌, ◌++◌, ◌==◌, if◌then◌else◌, ◌≡◌, ◌≢◌, ◌↔◌, inl, inr,
  refl, sym, ap, ◌∙◌, subst, arith, eq_iff, Memᴰ, Bool-cases, Option-cases,
}
use youk.GlobalPatterns.Entry.{PatternEntry, validates, construct}
use youk.GlobalPatterns.Rows.{
  put_rows, latest_rows, effective_patterns, row_with, RetireReply, no_reason, unknown_id, invalid,
  retired,
}
use youk.GlobalPatterns.Store.{Tools, retire_global_pattern}
use youk.GlobalPatterns.Latest.{
  LastOf, latest_rows-LastOf, latest_rows-none, row_with-put_row, row_with-mem, put_rows-append,
  effective_iff,
}

named_text : (a b : String) → (a == b) ≡ false → a ≢ b
named_text a b h = λ e. let h' = (eq_iff a b).1 e in cc (h, h')

module _ (tools : Tools) where
  abbrev pub as_retired : PatternEntry → PatternEntry
  as_retired row = record row { status = "retired" }

  -- What a call with the answer `after` as the rows has written for the last row of the id.
  pub data Tombstone (row : PatternEntry) (store : List PatternEntry)
      : List PatternEntry → Type 0 where
    there : row.status ≡ "retired" → Tombstone row store store
    appended :
        row.status ≢ "retired"
        → validates tools.strip tools.schema (as_retired row) ≡ true
        → Tombstone row store (store ++ as_retired row ∷ [])

  -- What a call of retire_global_pattern answers, and the rows that it leaves.
  pub data RetireOutcome (id reason : String) (store : List PatternEntry)
      : RetireReply × List PatternEntry → Type 0 where
    unreasoned : tools.strip reason ≡ "" → RetireOutcome id reason store (no_reason, store)
    unknown :
        tools.strip reason ≢ ""
        → ((e : PatternEntry) → Memᴰ e store → e.id ≢ id)
        → RetireOutcome id reason store (unknown_id, store)
    broken :
        (row : PatternEntry)
        → tools.strip reason ≢ ""
        → LastOf id store row
        → row.status ≢ "retired"
        → validates tools.strip tools.schema (as_retired row) ≡ false
        → RetireOutcome id reason store (invalid, store)
    done :
        (row : PatternEntry) (after : List PatternEntry)
        → tools.strip reason ≢ ""
        → LastOf id store row
        → Tombstone row store after
        → ((e : PatternEntry) → e.id ≡ id → ¬ Memᴰ e (effective_patterns after))
        → ((e : PatternEntry)
            → e.id ≢ id
            → Memᴰ e (effective_patterns after) ↔ Memᴰ e (effective_patterns store))
        → RetireOutcome id reason store (retired (as_retired row), after)

  latest-append :
      (k : String) (r : PatternEntry) (store : List PatternEntry)
      → row_with k (latest_rows (store ++ r ∷ []))
        ≡ (if r.id == k then some r else row_with k (latest_rows store))
  unfolding latest_rows put_rows
  latest-append k r store =
      ap (row_with k) (put_rows-append store (r ∷ []) []) ∙ row_with-put_row k r (put_rows store [])

  out_of_effect :
      (id : String) (store : List PatternEntry) (r : PatternEntry)
      → row_with id (latest_rows store) ≡ some r
      → r.status ≡ "retired"
      → (e : PatternEntry) → e.id ≡ id
      → ¬ Memᴰ e (effective_patterns store)
  out_of_effect id store r found over e same i =
      let (last, live) = (effective_iff e store).0 i in
      let last' : row_with id (latest_rows store) ≡ some e =
        subst (λ k. row_with k (latest_rows store) ≡ some e) same last in
      let equal : e ≡ r = cc (found, last') in
      live (ap (λ (x : PatternEntry). x.status) equal ∙ over)

  appended-kept :
      (id : String) (store : List PatternEntry) (r e : PatternEntry)
      → r.id ≡ id
      → e.id ≢ id
      → Memᴰ e (effective_patterns (store ++ r ∷ [])) ↔ Memᴰ e (effective_patterns store)
  appended-kept id store r e named other =
      let away : (r.id == e.id) ≡ false = ground (arith, eq_iff r.id e.id) in
      let same : row_with e.id (latest_rows (store ++ r ∷ [])) ≡ row_with e.id (latest_rows store) =
        latest-append e.id r store ∙ rw away refl in
      (
        λ i.
            let (a, b) = (effective_iff e (store ++ r ∷ [])).0 i in
            (effective_iff e store).1 (sym same ∙ a, b),
        λ i.
            let (a, b) = (effective_iff e store).0 i in
            (effective_iff e (store ++ r ∷ [])).1 (same ∙ a, b),
      )

  retires :
      (id reason : String) (store : List PatternEntry) (row : PatternEntry)
      → tools.strip reason ≢ ""
      → row_with id (latest_rows store) ≡ some row
      → row.status ≢ "retired"
      → validates tools.strip tools.schema (as_retired row) ≡ true
      → RetireOutcome id reason store (retired (as_retired row), store ++ as_retired row ∷ [])
  retires id reason store row said found live valid =
      let named = (row_with-mem id (latest_rows store) found).1 in
      let r = as_retired row in
      let newest : row_with id (latest_rows (store ++ r ∷ [])) ≡ some r =
        latest-append id r store ∙ rw ((eq_iff row.id id).1 named) refl in
      done row (store ++ r ∷ []) said (latest_rows-LastOf id store found) (appended live valid)
        (out_of_effect id (store ++ r ∷ []) r newest refl)
        λ e other. appended-kept id store r e named other

  -- retire_global_pattern refuses and writes nothing exactly when the reason is blank, no row of
  -- the store has the id, or the last row of the id, not retired yet, would not validate as a
  -- retired one. Otherwise it answers that row with the status retired, which it has appended unless
  -- the row had that status already; afterwards no row of the id is in effect, and every row of
  -- another id is in effect exactly when it was before.
  pub retire_global_pattern_lem :
      (id reason : String) (store : List PatternEntry)
      → RetireOutcome id reason store (retire_global_pattern tools id reason store)
  unfolding retire_global_pattern construct
  retire_global_pattern_lem id reason store = elim (Bool-cases (tools.strip reason == "")) [
    | inl blank ↦
        rw (retire_global_pattern, blank) (unreasoned ((eq_iff (tools.strip reason) "").0 blank))
    | inr given ↦
        let said = named_text (tools.strip reason) "" given in
        elim (Option-cases (row_with id (latest_rows store))) [
          | inl none_has ↦
              rw (retire_global_pattern, given, none_has)
                (unknown said (latest_rows-none id store none_has))
          | inr (row, found) ↦
              let last = latest_rows-LastOf id store found in
              elim (Bool-cases (row.status == "retired")) [
                | inl over ↦
                    let is_over = (eq_iff row.status "retired").0 over in
                    let same : as_retired row ≡ row =
                      ap (λ (t : String). record row { status = t }) (sym is_over) in
                    rw (retire_global_pattern, given, found, over)
                      (subst (λ r. RetireOutcome id reason store (retired r, store)) same
                        (done row store said last (there is_over)
                          (out_of_effect id store row found is_over) λ e other. (λ i. i, λ i. i)))
                | inr live ↦
                    let is_live = named_text row.status "retired" live in
                    elim (Bool-cases (validates tools.strip tools.schema (as_retired row))) [
                      | inl valid ↦
                          rw (retire_global_pattern, given, found, live, valid)
                            (retires id reason store row said found is_live valid)
                      | inr invalid_row ↦
                          rw (retire_global_pattern, given, found, live, invalid_row)
                            (broken row said last is_live invalid_row)
                    ]
              ]
        ]
  ]
