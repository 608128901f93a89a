-- ===== src/ConceptGraph/Again.antt =====
-- Writing the same concepts twice, for write_concepts of servers/core/src/concept_graph.py.
use youk.Prelude.{
  ℕ, String, true, false, none, some, List, [], ◌∷◌, any-append, ◌≡◌, inl, inr, refl, sym, ap, ◌∙◌,
  subst, arith, eq_refl, Bool-cases, Option-cases,
}
use youk.ConceptGraph.{
  Concept, ConceptRow, RawEdge, EdgeRow, Tables, Written, find_concept, write_rows,
  cooccurrence_edges, has_edge, insert_edge, write_edge, write_edges, write_concepts,
}
use youk.ConceptGraph.Rows.{id_of}
use youk.ConceptGraph.Refreshed.{AllKnown, SameIds, AllKnown-write_rows, write_rows-Refreshed}

-- The edge is there if both its ends are.
abbrev Present : String → List ConceptRow → List EdgeRow → RawEdge → Type 0
Present slug rows edges raw =
    (a b : ℕ)
    → id_of (find_concept raw.label_a slug rows) ≡ some a
    → id_of (find_concept raw.label_b slug rows) ≡ some b
    → has_edge a b raw.edge_type edges ≡ true

AllPresent : String → List ConceptRow → List EdgeRow → List RawEdge → Type 0
AllPresent slug rows edges [] = Unit
AllPresent slug rows edges (raw ∷ raws) =
    Present slug rows edges raw × AllPresent slug rows edges raws

insert_edge_mono :
    (a b x y : ℕ) (kind other : String) (n : ℕ) (edges : List EdgeRow)
    → has_edge x y other edges ≡ true
    → has_edge x y other (insert_edge a b kind n edges).1 ≡ true
unfolding insert_edge has_edge
insert_edge_mono a b x y kind other n edges h = elim (Bool-cases (has_edge a b kind edges)) [
  | inl there ↦ rw (insert_edge, there) h
  | inr new ↦ rw (insert_edge, new) (any-append _ edges _ ∙ rw h refl)
]

insert_edge-there :
    (a b : ℕ) (kind : String) (n : ℕ) (edges : List EdgeRow)
    → has_edge a b kind (insert_edge a b kind n edges).1 ≡ true
unfolding insert_edge has_edge
insert_edge-there a b kind n edges = elim (Bool-cases (has_edge a b kind edges)) [
  | inl there ↦ rw (insert_edge, there) there
  | inr new ↦ rw (insert_edge, new) (any-append _ edges _ ∙ ground (arith, eq_refl kind))
]

write_edge-concepts :
    (slug : String) (n : ℕ) (raw : RawEdge) (db : Tables)
    → (write_edge slug n raw db).1.concepts ≡ db.concepts
unfolding write_edge
write_edge-concepts slug n raw db =
    elim (Option-cases (find_concept raw.label_a slug db.concepts)) [
      | inl absent ↦ rw (write_edge, absent) refl
      | inr (a, found) ↦ elim (Option-cases (find_concept raw.label_b slug db.concepts)) [
        | inl absent ↦ rw (write_edge, found, absent) refl
        | inr (b, other) ↦ rw (write_edge, found, other) refl
      ]
    ]

write_edge_mono :
    (slug : String) (n : ℕ) (raw : RawEdge) (db : Tables) (x y : ℕ) (other : String)
    → has_edge x y other db.edges ≡ true
    → has_edge x y other (write_edge slug n raw db).1.edges ≡ true
unfolding write_edge
write_edge_mono slug n raw db x y other h =
    elim (Option-cases (find_concept raw.label_a slug db.concepts)) [
      | inl absent ↦ rw (write_edge, absent) h
      | inr (a, found) ↦ elim (Option-cases (find_concept raw.label_b slug db.concepts)) [
        | inl absent ↦ rw (write_edge, found, absent) h
        | inr (b, last) ↦
            rw (write_edge, found, last)
              (insert_edge_mono a.id b.id x y raw.edge_type other n db.edges h)
      ]
    ]

write_edge-Present :
    (slug : String) (n : ℕ) (raw : RawEdge) (db : Tables)
    → Present slug db.concepts (write_edge slug n raw db).1.edges raw
unfolding write_edge id_of
write_edge-Present slug n raw db a b ha hb =
    elim (Option-cases (find_concept raw.label_a slug db.concepts)) [
      | inl absent ↦ let h : none ≡ some a = rw absent at ha in cc h
      | inr (r, found) ↦ elim (Option-cases (find_concept raw.label_b slug db.concepts)) [
        | inl absent ↦ let h : none ≡ some b = rw absent at hb in cc h
        | inr (s, last) ↦
            let ra : some r.id ≡ some a = rw found at ha in
            let sb : some s.id ≡ some b = rw last at hb in
            let ea : r.id ≡ a = cc ra in
            let eb : s.id ≡ b = cc sb in
            rw (write_edge, found, last, sym ea, sym eb)
              (insert_edge-there r.id s.id raw.edge_type n db.edges)
      ]
    ]

write_edges-concepts :
    (slug : String) (n : ℕ) (raws : List RawEdge) (db : Tables)
    → (write_edges slug n raws db).1.concepts ≡ db.concepts
unfolding write_edges
write_edges-concepts slug n [] db = refl
write_edges-concepts slug n (raw ∷ raws) db =
    write_edges-concepts slug n raws (write_edge slug n raw db).1
    ∙ write_edge-concepts slug n raw db

write_edges_mono :
    (slug : String) (n : ℕ) (raws : List RawEdge) (db : Tables) (x y : ℕ) (other : String)
    → has_edge x y other db.edges ≡ true
    → has_edge x y other (write_edges slug n raws db).1.edges ≡ true
unfolding write_edges
write_edges_mono slug n [] db x y other h = h
write_edges_mono slug n (raw ∷ raws) db x y other h =
    write_edges_mono slug n raws (write_edge slug n raw db).1 x y other
      (write_edge_mono slug n raw db x y other h)

write_edges-AllPresent :
    (slug : String) (n : ℕ) (raws : List RawEdge) (db : Tables)
    → AllPresent slug db.concepts (write_edges slug n raws db).1.edges raws
unfolding write_edges AllPresent
write_edges-AllPresent slug n [] db = tt
write_edges-AllPresent slug n (raw ∷ raws) db =
    let after = (write_edge slug n raw db).1 in
    let later : AllPresent slug after.concepts (write_edges slug n raws after).1.edges raws =
      write_edges-AllPresent slug n raws after in
    (
      λ a b ha hb.
          write_edges_mono slug n raws after a b raw.edge_type
            (write_edge-Present slug n raw db a b ha hb),
      subst (λ rows. AllPresent slug rows (write_edges slug n raws after).1.edges raws)
          (write_edge-concepts slug n raw db) later,
    )

AllPresent-SameIds :
    (slug : String) (db other : Tables) (edges : List EdgeRow) (raws : List RawEdge)
    → SameIds db other
    → AllPresent slug db.concepts edges raws
    → AllPresent slug other.concepts edges raws
unfolding AllPresent
AllPresent-SameIds slug db other edges [] same p = tt
AllPresent-SameIds slug db other edges (raw ∷ raws) same (p, ps) = (
  λ a b ha hb. p a b (same raw.label_a slug ∙ ha) (same raw.label_b slug ∙ hb),
  AllPresent-SameIds slug db other edges raws same ps,
)

write_edge_again :
    (slug : String) (n : ℕ) (raw : RawEdge) (db : Tables)
    → Present slug db.concepts db.edges raw
    → write_edge slug n raw db ≡ (false, db)
unfolding write_edge insert_edge id_of
write_edge_again slug n raw db p = elim (Option-cases (find_concept raw.label_a slug db.concepts)) [
  | inl absent ↦ rw (write_edge, absent) refl
  | inr (r, found) ↦ elim (Option-cases (find_concept raw.label_b slug db.concepts)) [
    | inl absent ↦ rw (write_edge, found, absent) refl
    | inr (s, last) ↦
        let there = p r.id s.id (rw found refl) (rw last refl) in
        rw (write_edge, found, last, insert_edge, there) refl
  ]
]

write_edges_again :
    (slug : String) (n : ℕ) (raws : List RawEdge) (db : Tables)
    → AllPresent slug db.concepts db.edges raws
    → write_edges slug n raws db ≡ (0, db)
unfolding write_edges AllPresent
write_edges_again slug n [] db p = refl
write_edges_again slug n (raw ∷ raws) db (p, ps) =
    rw (write_edges, write_edge_again slug n raw db p, write_edges_again slug n raws db ps) refl

AllKnown-same :
    (cs : List Concept) (db other : Tables)
    → other.concepts ≡ db.concepts
    → AllKnown cs db
    → AllKnown cs other
unfolding AllKnown
AllKnown-same [] db other same k = tt
AllKnown-same (c ∷ cs) db other same ((r, found), ks) =
    ((r, ap (find_concept c.label c.project_slug) same ∙ found), AllKnown-same cs db other same ks)

-- Concepts whose rows and edges are there are written to no effect on the ids and the edges.
pub record Unchanged (db : Tables) (result : Written × Tables) : Type 0 where
  nothing_new : result.0 ≡ record { written = 0; edges_written = 0 }
  edges_same : result.1.edges ≡ db.edges
  ids_same : SameIds db result.1

write_concepts-Unchanged :
    (concepts : List Concept) (slug : String) (n : ℕ) (db : Tables)
    → AllKnown concepts db
    → AllPresent slug db.concepts db.edges (cooccurrence_edges concepts)
    → Unchanged db (write_concepts concepts slug n db)
unfolding write_concepts
write_concepts-Unchanged concepts slug n db known present =
    let rows = write_rows-Refreshed concepts db known in
    let stored = (write_rows concepts db).1 in
    let moved =
      AllPresent-SameIds slug db stored db.edges (cooccurrence_edges concepts) rows.same_ids
        present in
    let edges = write_edges_again slug n (cooccurrence_edges concepts) stored (
      subst (λ e. AllPresent slug stored.concepts e (cooccurrence_edges concepts))
        (sym rows.same_edges) moved) in
    record {
      nothing_new =
          ap
            (λ m. record {
              written = m;
              edges_written = (write_edges slug n (cooccurrence_edges concepts) stored).0;
            })
            rows.none_new
          ∙ ap (λ (r : ℕ × Tables). record { written = 0; edges_written = r.0 }) edges;
      edges_same = ap (λ (r : ℕ × Tables). r.1.edges) edges ∙ rows.same_edges;
      ids_same = λ label slug'.
          rows.same_ids label slug'
          ∙ sym (ap (λ (r : ℕ × Tables). id_of (find_concept label slug' r.1.concepts)) edges);
    }

-- Writing the same concepts again, in whatever session, counts no new concept and no new edge; the
-- table of edges is as it was, and every label of every project has the id that it had.
pub write_concepts_again :
    (concepts : List Concept) (slug : String) (first second : ℕ) (db : Tables)
    → Unchanged
        (write_concepts concepts slug first db).1
        (write_concepts concepts slug second (write_concepts concepts slug first db).1)
unfolding write_concepts
write_concepts_again concepts slug first second db =
    let stored = (write_rows concepts db).1 in
    let raws = cooccurrence_edges concepts in
    let after = (write_edges slug first raws stored).1 in
    let same : after.concepts ≡ stored.concepts = write_edges-concepts slug first raws stored in
    write_concepts-Unchanged concepts slug second after
      (AllKnown-same concepts stored after same (AllKnown-write_rows concepts db))
      (subst (λ rows. AllPresent slug rows after.edges raws) (sym same)
        (write_edges-AllPresent slug first raws stored))
