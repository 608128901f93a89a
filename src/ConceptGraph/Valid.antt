-- ===== src/ConceptGraph/Valid.antt =====
-- The constraints of the tables concepts and concept_edges, for write_concepts of
-- servers/core/src/concept_graph.py.
use youk.Prelude.Memᴰ
use youk.Prelude.{
  ℕ, suc, false, none, some, List, [], ◌∷◌, ◌++◌, map, ◌<◌, ◌≢◌, ◌≡◌, inl, inr, refl, sym, ap, ◌∙◌,
  arith, eq_iff, Memᴰ, Bool-cases, Option-cases,
}
use youk.ConceptGraph.{
  Concept, ConceptRow, EdgeRow, Tables, is_keyed, find_concept, refresh, new_row, upsert,
  write_rows, has_edge,
}
use youk.ConceptGraph.Rows.{refresh-Kept, refreshed, find-refresh, find-append}

-- Each label of a project once.
unfoldable pub KeysOnce : List ConceptRow → Type 0
KeysOnce [] = Unit
KeysOnce (r ∷ rows) = (find_concept r.label r.project_slug rows ≡ none) × KeysOnce rows

-- Each id once, and below the next one.
unfoldable pub IdsOnce : List ConceptRow → ℕ → Type 0
IdsOnce [] next = Unit
IdsOnce (r ∷ rows) next =
    (r.id < next) × ((x : ConceptRow) → Memᴰ x rows → r.id ≢ x.id) × IdsOnce rows next

abbrev pub HasId : ℕ → List ConceptRow → Type 0
HasId i rows = (r : ConceptRow) × Memᴰ r rows × (r.id ≡ i)

-- Each edge once.
unfoldable pub EdgesOnce : List EdgeRow → Type 0
EdgesOnce [] = Unit
EdgesOnce (e ∷ edges) = (has_edge e.from_id e.to_id e.edge_type edges ≡ false) × EdgesOnce edges

abbrev pub BothEnds : List EdgeRow → List ConceptRow → Type 0
BothEnds edges rows = (e : EdgeRow) → Memᴰ e edges → HasId e.from_id rows × HasId e.to_id rows

pub record IsValid (db : Tables) : Type 0 where
  pub keys : KeysOnce db.concepts
  pub ids : IdsOnce db.concepts db.next_id
  pub distinct : EdgesOnce db.edges
  pub ends : BothEnds db.edges db.concepts

KeysOnce-refresh :
    (c : Concept) (rows : List ConceptRow) → KeysOnce rows → KeysOnce (map (refresh c) rows)
unfolding KeysOnce refreshed
KeysOnce-refresh c [] once = tt
KeysOnce-refresh c (r ∷ rows) (absent, once) =
    let kept = refresh-Kept c r in
    (
      rw (kept.same_label, kept.same_slug)
          (find-refresh c r.label r.project_slug rows ∙ ap (refreshed c) absent),
      KeysOnce-refresh c rows once,
    )

key_other :
    (r n : ConceptRow) (rows : List ConceptRow)
    → find_concept n.label n.project_slug (r ∷ rows) ≡ none
    → (is_keyed r.label r.project_slug n ≡ false)
      × (find_concept n.label n.project_slug rows ≡ none)
unfolding find_concept
key_other r n rows h = elim (Bool-cases (is_keyed n.label n.project_slug r)) [
  | inl here ↦ let e : some r ≡ none = rw here at h in cc e
  | inr away ↦ (
    ground (
      arith,
      eq_iff r.label n.label,
      eq_iff n.label r.label,
      eq_iff r.project_slug n.project_slug,
      eq_iff n.project_slug r.project_slug,
    ),
    rw away at h,
  )
]

KeysOnce-append :
    (rows : List ConceptRow) (n : ConceptRow)
    → KeysOnce rows
    → find_concept n.label n.project_slug rows ≡ none
    → KeysOnce (rows ++ n ∷ [])
unfolding KeysOnce find_concept
KeysOnce-append [] n once new = (refl, tt)
KeysOnce-append (r ∷ rows) n (absent, once) new =
    let (other, later) = key_other r n rows new in
    (
      find-append r.label r.project_slug rows n ∙ rw (absent, other) refl,
      KeysOnce-append rows n once later,
    )

mem-refresh :
    (c : Concept) (rows : List ConceptRow) {x : ConceptRow}
    → Memᴰ x (map (refresh c) rows)
    → HasId x.id rows
mem-refresh c [] i = elim i [ ]
mem-refresh c (r ∷ rows) {x} (Memᴰ.head h) =
    (r, Memᴰ.head refl, sym (ap (λ (y : ConceptRow). y.id) h ∙ (refresh-Kept c r).same_id))
mem-refresh c (r ∷ rows) (Memᴰ.tail i) = let (y, j, e) = mem-refresh c rows i in (y, Memᴰ.tail j, e)

IdsOnce-refresh :
    (c : Concept) (rows : List ConceptRow) (next : ℕ)
    → IdsOnce rows next
    → IdsOnce (map (refresh c) rows) next
unfolding IdsOnce
IdsOnce-refresh c [] next once = tt
IdsOnce-refresh c (r ∷ rows) next (below, other, once) =
    let kept = refresh-Kept c r in
    (
      rw kept.same_id below,
      λ x i e.
          (let (y, j, same) = mem-refresh c rows i in other y j (sym kept.same_id ∙ e ∙ sym same)),
      IdsOnce-refresh c rows next once,
    )

IdsOnce-append :
    (rows : List ConceptRow) (n : ConceptRow)
    → IdsOnce rows n.id
    → IdsOnce (rows ++ n ∷ []) (suc n.id)
unfolding IdsOnce
IdsOnce-append [] n once = (omega arith, λ x i. elim i [ ], tt)
IdsOnce-append (r ∷ rows) n (below, other, once) = (
  omega arith,
  λ x i e. elim (Memᴰ.append_cases rows i) [
    | inl j ↦ other x j e
    | inr j ↦
        let same = ap (λ (y : ConceptRow). y.id) (Memᴰ.eq_of_singleton j) in
        let clash : r.id ≡ n.id = e ∙ same in omega arith
  ],
  IdsOnce-append rows n once,
)

HasId-refresh :
    (c : Concept) (rows : List ConceptRow) (i : ℕ) → HasId i rows → HasId i (map (refresh c) rows)
HasId-refresh c rows i (r, m, e) =
    (refresh c r, Memᴰ.map (refresh c) m, (refresh-Kept c r).same_id ∙ e)

HasId-append :
    (rows : List ConceptRow) (n : ConceptRow) (i : ℕ) → HasId i rows → HasId i (rows ++ n ∷ [])
HasId-append rows n i (r, m, e) = (r, Memᴰ.append_left (n ∷ []) m, e)

upsert-IsValid : (c : Concept) (db : Tables) → IsValid db → IsValid (upsert c db)
unfolding upsert
upsert-IsValid c db valid = elim (Option-cases (find_concept c.label c.project_slug db.concepts)) [
  | inl absent ↦
      rw (upsert, absent)
        (record {
          keys = KeysOnce-append db.concepts (new_row db.next_id c) valid.keys absent;
          ids = IdsOnce-append db.concepts (new_row db.next_id c) valid.ids;
          distinct = valid.distinct;
          ends = λ e i.
              let (a, b) = valid.ends e i in
              (
                HasId-append db.concepts (new_row db.next_id c) e.from_id a,
                HasId-append db.concepts (new_row db.next_id c) e.to_id b,
              );
        })
  | inr (r, found) ↦
      rw (upsert, found)
        (record {
          keys = KeysOnce-refresh c db.concepts valid.keys;
          ids = IdsOnce-refresh c db.concepts db.next_id valid.ids;
          distinct = valid.distinct;
          ends = λ e i.
              let (a, b) = valid.ends e i in
              (HasId-refresh c db.concepts e.from_id a, HasId-refresh c db.concepts e.to_id b);
        })
]

pub write_rows-IsValid :
    (cs : List Concept) (db : Tables) → IsValid db → IsValid (write_rows cs db).1
unfolding write_rows
write_rows-IsValid [] db valid = valid
write_rows-IsValid (c ∷ cs) db valid =
    write_rows-IsValid cs (upsert c db) (upsert-IsValid c db valid)
