-- ===== src/ConceptGraph/Rows.antt =====
-- How the rows of the table concepts change, for write_concepts of servers/core/src/concept_graph.py.
use youk.Prelude.{
  ℕ, String, true, ◌&&◌, Option, none, some, List, [], ◌∷◌, ◌++◌, map, ◌==◌, if◌then◌else◌, ◌≡◌,
  inl, inr, refl, ap, ◌∙◌, eq_refl, Memᴰ, Bool-cases, Option-cases,
}
use youk.ConceptGraph.{
  Concept, ConceptRow, Tables, is_keyed, find_concept, refresh, new_row, upsert,
}

-- The row keeps its id, its key and its kind.
pub record Kept (r s : ConceptRow) : Type 0 where
  pub same_id : s.id ≡ r.id
  pub same_label : s.label ≡ r.label
  pub same_slug : s.project_slug ≡ r.project_slug
  pub same_kind : s.kind ≡ r.kind

pub refresh-Kept : (c : Concept) (r : ConceptRow) → Kept r (refresh c r)
unfolding refresh
refresh-Kept c r = elim (Bool-cases (is_keyed c.label c.project_slug r)) [
  | inl here ↦
      rw (refresh, here)
        (record { same_id = refl; same_label = refl; same_slug = refl; same_kind = refl })
  | inr away ↦
      rw (refresh, away)
        (record { same_id = refl; same_label = refl; same_slug = refl; same_kind = refl })
]

unfoldable pub id_of : Option ConceptRow → Option ℕ
id_of none = none
id_of (some r) = some r.id

unfoldable pub refreshed : Concept → Option ConceptRow → Option ConceptRow
unfolding refresh
refreshed c none = none
refreshed c (some r) = some (refresh c r)

pub find-refresh :
    (c : Concept) (label slug : String) (rows : List ConceptRow)
    → find_concept label slug (map (refresh c) rows) ≡ refreshed c (find_concept label slug rows)
unfolding find_concept refreshed
find-refresh c label slug [] = refl
find-refresh c label slug (r ∷ rows) =
    let kept = refresh-Kept c r in
    let same : is_keyed label slug (refresh c r) ≡ is_keyed label slug r =
      rw (kept.same_label, kept.same_slug) refl in
    elim (Bool-cases (is_keyed label slug r)) [
      | inl here ↦ rw (same, here) refl
      | inr away ↦ rw (same, away) (find-refresh c label slug rows)
    ]

pub id_of-refreshed : (c : Concept) (o : Option ConceptRow) → id_of (refreshed c o) ≡ id_of o
unfolding id_of refreshed
id_of-refreshed c none = refl
id_of-refreshed c (some r) = ap some (refresh-Kept c r).same_id

pub find-append :
    (label slug : String) (rows : List ConceptRow) (n : ConceptRow)
    → find_concept label slug (rows ++ n ∷ []) ≡ (elim (find_concept label slug rows) [
      | some r ↦ some r
      | none ↦ if is_keyed label slug n then some n else none
    ])
unfolding find_concept
find-append label slug [] n = refl
find-append label slug (r ∷ rows) n = elim (Bool-cases (is_keyed label slug r)) [
  | inl here ↦ rw here refl
  | inr away ↦ rw away (find-append label slug rows n)
]

pub find-mem :
    (label slug : String) (rows : List ConceptRow) {r : ConceptRow}
    → find_concept label slug rows ≡ some r
    → Memᴰ r rows
unfolding find_concept
find-mem label slug [] e = cc e
find-mem label slug (x ∷ rows) {r} e = elim (Bool-cases (is_keyed label slug x)) [
  | inl here ↦ let e' : some x ≡ some r = rw here at e in Memᴰ.head (cc e')
  | inr away ↦ Memᴰ.tail (find-mem label slug rows (rw away at e))
]

keyed_self : (label slug : String) → ((label == label) && (slug == slug)) ≡ true
keyed_self label slug = rw (eq_refl label, eq_refl slug) refl

-- After upsert the key is there.
pub find-upsert :
    (c : Concept) (db : Tables)
    → (r : ConceptRow) × (find_concept c.label c.project_slug (upsert c db).concepts ≡ some r)
unfolding upsert refreshed
find-upsert c db = elim (Option-cases (find_concept c.label c.project_slug db.concepts)) [
  | inl absent ↦ (
    new_row db.next_id c,
    rw (upsert, absent)
        (find-append c.label c.project_slug db.concepts (new_row db.next_id c)
          ∙ rw (absent, keyed_self c.label c.project_slug) refl),
  )
  | inr (r, found) ↦ (
    refresh c r,
    rw (upsert, found) (find-refresh c c.label c.project_slug db.concepts ∙ ap (refreshed c) found),
  )
]

-- A row that is there keeps its id, its key and its kind.
pub upsert-Kept :
    (c : Concept) (db : Tables) (label slug : String) {r : ConceptRow}
    → find_concept label slug db.concepts ≡ some r
    → (s : ConceptRow) × (find_concept label slug (upsert c db).concepts ≡ some s) × Kept r s
unfolding upsert refreshed
upsert-Kept c db label slug {r} h =
    elim (Option-cases (find_concept c.label c.project_slug db.concepts)) [
      | inl absent ↦ (
        r,
        rw (upsert, absent) (find-append label slug db.concepts (new_row db.next_id c) ∙ rw h refl),
        record { same_id = refl; same_label = refl; same_slug = refl; same_kind = refl },
      )
      | inr (x, found) ↦ (
        refresh c r,
        rw (upsert, found) (find-refresh c label slug db.concepts ∙ ap (refreshed c) h),
        refresh-Kept c r,
      )
    ]
