-- ===== src/ConceptGraph/Linked.antt =====
-- The edges keep the constraints, for write_concepts of servers/core/src/concept_graph.py.
use youk.Prelude.Memᴰ
use youk.Prelude.{
  ℕ, String, false, List, [], ◌∷◌, ◌++◌, any-append, ◌≡◌, ◌⊎◌, inl, inr, refl, sym, ap, ◌∙◌, arith,
  eq_iff, Memᴰ, Bool-cases, Option-cases,
}
use youk.ConceptGraph.{
  Concept, RawEdge, EdgeRow, Tables, find_concept, write_rows, cooccurrence_edges, has_edge,
  insert_edge, write_edge, write_edges, write_concepts,
}
use youk.ConceptGraph.Rows.{find-mem}
use youk.ConceptGraph.Valid.{EdgesOnce, IsValid, write_rows-IsValid}

EdgesOnce-append :
    (edges : List EdgeRow) (x : EdgeRow)
    → EdgesOnce edges
    → has_edge x.from_id x.to_id x.edge_type edges ≡ false
    → EdgesOnce (edges ++ x ∷ [])
unfolding EdgesOnce has_edge
EdgesOnce-append [] x once new = (refl, tt)
EdgesOnce-append (e ∷ edges) x (absent, once) new = (
  any-append _ edges _
      ∙ ground (arith, absent, new, eq_iff e.edge_type x.edge_type, eq_iff x.edge_type e.edge_type),
  EdgesOnce-append edges x once (ground (arith, new)),
)

insert_edge-EdgesOnce :
    (a b : ℕ) (kind : String) (n : ℕ) (edges : List EdgeRow)
    → EdgesOnce edges
    → EdgesOnce (insert_edge a b kind n edges).1
unfolding insert_edge
insert_edge-EdgesOnce a b kind n edges once = elim (Bool-cases (has_edge a b kind edges)) [
  | inl there ↦ rw (insert_edge, there) once
  | inr new ↦
      rw (insert_edge, new)
        (EdgesOnce-append edges
          (record { from_id = a; to_id = b; edge_type = kind; source_session = n }) once new)
]

insert_edge-mem :
    (a b : ℕ) (kind : String) (n : ℕ) (edges : List EdgeRow) {e : EdgeRow}
    → Memᴰ e (insert_edge a b kind n edges).1
    → Memᴰ e edges ⊎ ((e.from_id ≡ a) × (e.to_id ≡ b))
unfolding insert_edge
insert_edge-mem a b kind n edges {e} i = elim (Bool-cases (has_edge a b kind edges)) [
  | inl there ↦ let j : Memᴰ e edges = rw (insert_edge, there) at i in inl j
  | inr new ↦
      let added : EdgeRow = record {
        from_id = a;
        to_id = b;
        edge_type = kind;
        source_session = n;
      } in
      let j : Memᴰ e (edges ++ added ∷ []) = rw (insert_edge, new) at i in
      elim (Memᴰ.append_cases edges j) [
        | inl k ↦ inl k
        | inr k ↦
            let same = Memᴰ.eq_of_singleton k in
            inr (ap (λ (x : EdgeRow). x.from_id) same, ap (λ (x : EdgeRow). x.to_id) same)
      ]
]

write_edge-IsValid :
    (slug : String) (n : ℕ) (raw : RawEdge) (db : Tables)
    → IsValid db
    → IsValid (write_edge slug n raw db).1
unfolding write_edge
write_edge-IsValid slug n raw db valid =
    elim (Option-cases (find_concept raw.label_a slug db.concepts)) [
      | inl absent ↦ rw (write_edge, absent) valid
      | inr (r, found) ↦ elim (Option-cases (find_concept raw.label_b slug db.concepts)) [
        | inl absent ↦ rw (write_edge, found, absent) valid
        | inr (s, last) ↦
            rw (write_edge, found, last)
              (record {
                keys = valid.keys;
                ids = valid.ids;
                distinct = insert_edge-EdgesOnce r.id s.id raw.edge_type n db.edges valid.distinct;
                ends = λ e i. elim (insert_edge-mem r.id s.id raw.edge_type n db.edges i) [
                  | inl j ↦ valid.ends e j
                  | inr (a, b) ↦ (
                    (r, find-mem raw.label_a slug db.concepts found, sym a),
                    (s, find-mem raw.label_b slug db.concepts last, sym b),
                  )
                ];
              })
      ]
    ]

write_edges-IsValid :
    (slug : String) (n : ℕ) (raws : List RawEdge) (db : Tables)
    → IsValid db
    → IsValid (write_edges slug n raws db).1
unfolding write_edges
write_edges-IsValid slug n [] db valid = valid
write_edges-IsValid slug n (raw ∷ raws) db valid =
    write_edges-IsValid slug n raws (write_edge slug n raw db).1
      (write_edge-IsValid slug n raw db valid)

-- From tables in which each label of a project, each id and each edge stands once and every edge has
-- both its ends, write_concepts leads to such tables.
pub write_concepts-IsValid :
    (concepts : List Concept) (slug : String) (n : ℕ) (db : Tables)
    → IsValid db
    → IsValid (write_concepts concepts slug n db).1
unfolding write_concepts
write_concepts-IsValid concepts slug n db valid =
    write_edges-IsValid slug n (cooccurrence_edges concepts) (write_rows concepts db).1
      (write_rows-IsValid concepts db valid)
