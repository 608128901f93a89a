-- ===== src/ConceptGraph/Refreshed.antt =====
-- Concepts whose rows are there, for write_concepts of servers/core/src/concept_graph.py.
use youk.Prelude.{ℕ, String, some, List, [], ◌∷◌, map, ◌≡◌, refl, sym, ap, ◌∙◌, subst}
use youk.ConceptGraph.{Concept, ConceptRow, Tables, find_concept, refresh, upsert, write_rows}
use youk.ConceptGraph.Rows.{id_of, find-refresh, id_of-refreshed, find-upsert, upsert-Kept}

abbrev Known : Concept → Tables → Type 0
Known c db = (r : ConceptRow) × (find_concept c.label c.project_slug db.concepts ≡ some r)

unfoldable pub AllKnown : List Concept → Tables → Type 0
AllKnown [] db = Unit
AllKnown (c ∷ cs) db = Known c db × AllKnown cs db

-- The ids of two tables are the same, key for key.
abbrev pub SameIds : Tables → Tables → Type 0
SameIds db other =
    (label slug : String)
    → id_of (find_concept label slug db.concepts) ≡ id_of (find_concept label slug other.concepts)

Known-upsert : (c d : Concept) (db : Tables) → Known c db → Known c (upsert d db)
Known-upsert c d db (r, h) =
    let (s, found, kept) = upsert-Kept d db c.label c.project_slug h in (s, found)

AllKnown-upsert :
    (cs : List Concept) (d : Concept) (db : Tables) → AllKnown cs db → AllKnown cs (upsert d db)
unfolding AllKnown
AllKnown-upsert [] d db k = tt
AllKnown-upsert (c ∷ cs) d db (k, ks) = (Known-upsert c d db k, AllKnown-upsert cs d db ks)

Known-write_rows :
    (c : Concept) (cs : List Concept) (db : Tables) → Known c db → Known c (write_rows cs db).1
unfolding write_rows
Known-write_rows c [] db k = k
Known-write_rows c (d ∷ cs) db k = Known-write_rows c cs (upsert d db) (Known-upsert c d db k)

pub AllKnown-write_rows : (cs : List Concept) (db : Tables) → AllKnown cs (write_rows cs db).1
unfolding AllKnown write_rows
AllKnown-write_rows [] db = tt
AllKnown-write_rows (c ∷ cs) db =
    (Known-write_rows c cs (upsert c db) (find-upsert c db), AllKnown-write_rows cs (upsert c db))

upsert_there :
    (c : Concept) (db : Tables)
    → Known c db
    → upsert c db ≡ record db { concepts = map (refresh c) db.concepts }
unfolding upsert
upsert_there c db (r, found) = rw (upsert, found) refl

SameIds-upsert : (c : Concept) (db : Tables) → Known c db → SameIds db (upsert c db)
SameIds-upsert c db k =
    subst (λ t. SameIds db t) (sym (upsert_there c db k))
      λ label slug. sym (
        ap id_of (find-refresh c label slug db.concepts)
        ∙ id_of-refreshed c (find_concept label slug db.concepts))

edges_there : (c : Concept) (db : Tables) → Known c db → (upsert c db).edges ≡ db.edges
edges_there c db k = ap (λ (t : Tables). t.edges) (upsert_there c db k)

next_there : (c : Concept) (db : Tables) → Known c db → (upsert c db).next_id ≡ db.next_id
next_there c db k = ap (λ (t : Tables). t.next_id) (upsert_there c db k)

-- Rows that are there are refreshed, and none is new.
pub record Refreshed (db : Tables) (result : ℕ × Tables) : Type 0 where
  pub none_new : result.0 ≡ 0
  pub same_ids : SameIds db result.1
  pub same_edges : result.1.edges ≡ db.edges
  pub same_next : result.1.next_id ≡ db.next_id

pub write_rows-Refreshed :
    (cs : List Concept) (db : Tables) → AllKnown cs db → Refreshed db (write_rows cs db)
unfolding AllKnown write_rows
write_rows-Refreshed [] db k = record {
  none_new = refl;
  same_ids = λ l s. refl;
  same_edges = refl;
  same_next = refl;
}
write_rows-Refreshed (c ∷ cs) db (k, ks) =
    let later = write_rows-Refreshed cs (upsert c db) (AllKnown-upsert cs c db ks) in
    record {
      none_new = rw (write_rows, k.1) later.none_new;
      same_ids = λ l s. SameIds-upsert c db k l s ∙ later.same_ids l s;
      same_edges = later.same_edges ∙ edges_there c db k;
      same_next = later.same_next ∙ next_there c db k;
    }
