-- ===== src/ConceptGraph.antt =====
-- write_concepts and _cooccurrence_edges of servers/core/src/concept_graph.py, on the tables concepts
-- and concept_edges.
pub mod Rows
pub mod Valid
pub mod Refreshed
pub mod Linked
pub mod Again
mod Tests
use youk.Prelude.{
  ℕ, suc, String, Bool, true, false, not, ◌&&◌, Option, none, some, List, [], ◌∷◌, ◌++◌, map, ◌==◌,
  if◌then◌else◌, any, nat_eq, joined,
}

-- `source_file` is "" where the concept has none.
pub record Concept : Type 0 where
  pub label : String
  pub kind : String
  pub project_slug : String
  pub session_n : ℕ
  pub created_at : String
  pub summary : String
  pub source_file : String

pub record ConceptRow : Type 0 where
  pub id : ℕ
  pub label : String
  pub kind : String
  pub project_slug : String
  pub session_n : ℕ
  pub created_at : String
  pub summary : String

-- The weight is 1.0 in every edge.
pub record RawEdge : Type 0 where
  pub label_a : String
  pub label_b : String
  pub edge_type : String

pub record EdgeRow : Type 0 where
  pub from_id : ℕ
  pub to_id : ℕ
  pub edge_type : String
  pub source_session : ℕ

pub record Tables : Type 0 where
  pub concepts : List ConceptRow
  pub edges : List EdgeRow
  pub next_id : ℕ

pub record Written : Type 0 where
  pub written : ℕ
  pub edges_written : ℕ

-- UNIQUE (label, project_slug)
abbrev pub is_keyed : String → String → ConceptRow → Bool
is_keyed label slug r = r.label == label && r.project_slug == slug

unfoldable pub find_concept : String → String → List ConceptRow → Option ConceptRow
find_concept label slug [] = none
find_concept label slug (r ∷ rest) =
    let later = find_concept label slug rest in if is_keyed label slug r then some r else later

unfoldable pub refresh : Concept → ConceptRow → ConceptRow
refresh c r =
    if is_keyed c.label c.project_slug r
    then record r { session_n = c.session_n; created_at = c.created_at; summary = c.summary }
    else r

abbrev pub new_row : ℕ → Concept → ConceptRow
new_row id c = record {
  id = id;
  label = c.label;
  kind = c.kind;
  project_slug = c.project_slug;
  session_n = c.session_n;
  created_at = c.created_at;
  summary = c.summary;
}

-- INSERT INTO concepts ... ON CONFLICT (label, project_slug) DO UPDATE
unfoldable pub upsert : Concept → Tables → Tables
unfolding find_concept refresh
upsert c db = elim (find_concept c.label c.project_slug db.concepts) [
  | none ↦ record db {
    concepts = db.concepts ++ new_row db.next_id c ∷ [];
    next_id = suc db.next_id;
  }
  | some r ↦ record db { concepts = map (refresh c) db.concepts }
]

-- The loop over the concepts, with the number of those that are new.
unfoldable pub write_rows : List Concept → Tables → ℕ × Tables
unfolding upsert
write_rows [] db = (0, db)
write_rows (c ∷ cs) db =
    let (written, after) = write_rows cs (upsert c db) in
    (
      elim (find_concept c.label c.project_slug db.concepts) [
        | none ↦ suc written
        | some r ↦ written
      ],
      after,
    )

-- `by.setdefault(key, []).append(item)`
unfoldable pub add_item :
    {A : Type 0} → String → A → List (String × List A) → List (String × List A)
add_item key item [] = (key, item ∷ []) ∷ []
add_item key item ((k, items) ∷ rest) =
    let later = (k, items) ∷ add_item key item rest in
    if k == key then (k, items ++ item ∷ []) ∷ rest else later

unfoldable pub by_file :
    List Concept → List (String × List (String × String)) → List (String × List (String × String))
unfolding add_item
by_file [] groups = groups
by_file (c ∷ cs) groups = by_file cs (
    add_item (if c.source_file == "" then "__unknown__" else c.source_file) (c.label, c.kind)
      groups)

unfoldable pub by_type : List Concept → List (String × List String) → List (String × List String)
unfolding add_item
by_type [] groups = groups
by_type (c ∷ cs) groups = by_type cs (add_item c.kind c.label groups)

abbrev pub file_edge : String × String → String × String → RawEdge
file_edge (a, a_kind) (b, b_kind) = record {
  label_a = a;
  label_b = b;
  edge_type = if a_kind == b_kind then joined "co_" a_kind else "co_related";
}

unfoldable pub file_pairs : List (String × String) → List RawEdge
file_pairs [] = []
file_pairs (a ∷ items) = map (file_edge a) items ++ file_pairs items

unfoldable pub type_pairs : String → List String → List RawEdge
type_pairs kind [] = []
type_pairs kind (a ∷ labels) =
    map (λ b. record { label_a = a; label_b = b; edge_type = joined "co_" kind }) labels
    ++ type_pairs kind labels

unfoldable pub all_file_pairs : List (String × List (String × String)) → List RawEdge
unfolding file_pairs
all_file_pairs [] = []
all_file_pairs ((key, items) ∷ groups) = file_pairs items ++ all_file_pairs groups

unfoldable pub all_type_pairs : List (String × List String) → List RawEdge
unfolding type_pairs
all_type_pairs [] = []
all_type_pairs ((kind, labels) ∷ groups) = type_pairs kind labels ++ all_type_pairs groups

unfoldable pub cooccurrence_edges : List Concept → List RawEdge
unfolding any by_file by_type all_file_pairs all_type_pairs
cooccurrence_edges concepts =
    if any (λ (c : Concept). not (c.source_file == "")) concepts
    then all_file_pairs (by_file concepts [])
    else all_type_pairs (by_type concepts [])

-- UNIQUE (from_id, to_id, edge_type)
unfoldable pub has_edge : ℕ → ℕ → String → List EdgeRow → Bool
unfolding any
has_edge a b kind edges =
    any (λ (e : EdgeRow). nat_eq e.from_id a && nat_eq e.to_id b && e.edge_type == kind) edges

-- INSERT OR IGNORE INTO concept_edges
unfoldable pub insert_edge : ℕ → ℕ → String → ℕ → List EdgeRow → Bool × List EdgeRow
unfolding has_edge
insert_edge a b kind session_n edges = if has_edge a b kind edges then (false, edges) else (
  true,
  edges ++ record { from_id = a; to_id = b; edge_type = kind; source_session = session_n } ∷ [],
)

unfoldable pub write_edge : String → ℕ → RawEdge → Tables → Bool × Tables
unfolding insert_edge
write_edge slug session_n raw db = elim (find_concept raw.label_a slug db.concepts) [
  | none ↦ (false, db)
  | some a ↦ elim (find_concept raw.label_b slug db.concepts) [
    | none ↦ (false, db)
    | some b ↦
        let (new, edges) = insert_edge a.id b.id raw.edge_type session_n db.edges in
        (new, record db { edges = edges })
  ]
]

unfoldable pub write_edges : String → ℕ → List RawEdge → Tables → ℕ × Tables
unfolding write_edge
write_edges slug session_n [] db = (0, db)
write_edges slug session_n (raw ∷ raws) db =
    let (new, after) = write_edge slug session_n raw db in
    let (count, last) = write_edges slug session_n raws after in
    (if new then suc count else count, last)

unfoldable pub write_concepts : List Concept → String → ℕ → Tables → Written × Tables
unfolding write_rows cooccurrence_edges write_edges
write_concepts concepts slug session_n db =
    let (written, stored) = write_rows concepts db in
    let (edges_written, after) = write_edges slug session_n (cooccurrence_edges concepts) stored in
    (record { written = written; edges_written = edges_written }, after)
