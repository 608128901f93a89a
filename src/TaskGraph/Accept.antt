-- ===== src/TaskGraph/Accept.antt =====
-- create_task_graph of graph.py: when it refuses, and what it has written when it accepts.
use youk.Prelude.{
  ℕ, ◌+◌, String, false, List, [], ◌∷◌, ◌++◌, ◌==◌, if◌then◌else◌, ◌≡◌, ◌⊎◌, inl, inr, refl, sym,
  ◌∙◌, subst, arith, eq_iff, Memᴰ, Bool-cases, List-cases, eq_refl, length, length-append,
  select-mem, mem-select,
}
use youk.TaskGraph.Cycle.{Edge, would_cycle}
use youk.TaskGraph.Cycle.Found.{Cyclic}
use youk.TaskGraph.Cycle.Exact.{would_cycle_iff}
use youk.TaskGraph.Store.{
  Task, Db, fresh_task, has_task, insert_task, update_task, has_edge, insert_edge,
}
use youk.TaskGraph.Create.{
  NewTask, CreateReply, created, self_edge_error, cycle_error, self_edges, seed, seed_all, seeded,
  created_by, link, link_all, edges_added_by, create_task_graph, truthy, adopt,
}
use youk.TaskGraph.Rows.{insert_edge-mem, insert_edge-keeps}
use youk.TaskGraph.Steps.{create_task_graph_self, create_task_graph_cycle}

abbrev pub IsError : CreateReply → Type 0
IsError (created a b c) = ⊥
IsError (self_edge_error es) = Unit {0}
IsError cycle_error = Unit {0}

-- What the caller must not ask for.
abbrev pub BreaksDag : List Edge → Db → Type 0
BreaksDag edges db = ((id : String) × Memᴰ (id, id) edges) ⊎ Cyclic (db.edges ++ edges)

length-update_task :
    (id : String) (f : Task → Task) (ts : List Task) → length (update_task id f ts) ≡ length ts
unfolding update_task
length-update_task id f [] = refl
length-update_task id f (t ∷ ts) = omega (arith, length-update_task id f ts)

length-insert_task :
    (t : Task) (ts : List Task)
    → length (insert_task t ts) ≡ (if has_task t.id ts then 0 else 1) + length ts
unfolding insert_task
length-insert_task t ts = ground (arith, length-append ts (t ∷ []))

length-seed :
    (n : NewTask) (ts : List Task)
    → length (seed n ts) ≡ (if has_task n.id ts then 0 else 1) + length ts
unfolding seed
length-seed n ts =
    let row = fresh_task n.id n.label n.project in
    elim (Bool-cases (truthy n.project)) [
      | inl y ↦ rw y (
          length-update_task n.id (adopt n.project) (insert_task row ts)
          ∙ length-insert_task row ts)
      | inr x ↦ rw x (length-insert_task row ts)
    ]

length-seed_all :
    (ns : List NewTask) (ts : List Task) → length (seed_all ns ts) ≡ created_by ns ts + length ts
unfolding seed_all created_by
length-seed_all [] ts = omega arith
length-seed_all (n ∷ ns) ts = omega (arith, length-seed_all ns (seed n ts), length-seed n ts)

length-insert_edge :
    (e : Edge) (es : List Edge)
    → length (insert_edge e es) ≡ (if has_edge e es then 0 else 1) + length es
unfolding insert_edge
length-insert_edge e es = ground (arith, length-append es (e ∷ []))

length-link_all :
    (es : List Edge) (db : Db)
    → length (link_all es db).edges ≡ edges_added_by es db + length db.edges
unfolding link_all edges_added_by link
length-link_all [] db = omega arith
length-link_all (e ∷ es) db =
    omega (arith, length-link_all es (link e db), length-insert_edge e db.edges)

link_all-keeps :
    (es : List Edge) (db : Db) {d : Edge} → Memᴰ d db.edges → Memᴰ d (link_all es db).edges
unfolding link_all link
link_all-keeps [] db m = m
link_all-keeps (e ∷ es) db m = link_all-keeps es (link e db) (insert_edge-keeps e db.edges m)

link_all-mem : (es : List Edge) (db : Db) {d : Edge} → Memᴰ d es → Memᴰ d (link_all es db).edges
unfolding link_all link
link_all-mem [] db m = elim m [ ]
link_all-mem (e ∷ es) db (Memᴰ.head h) =
    link_all-keeps es (link e db)
      (subst (λ x. Memᴰ x (insert_edge e db.edges)) (sym h) (insert_edge-mem e db.edges))
link_all-mem (e ∷ es) db (Memᴰ.tail m) = link_all-mem es (link e db) m

self_edges-mem :
    (edges : List Edge) (e : Edge) (es : List Edge)
    → self_edges edges ≡ e ∷ es
    → (id : String) × Memᴰ (id, id) edges
unfolding self_edges
self_edges-mem edges e es h =
    let (m, same) =
      select-mem (λ (d : Edge). d.0 == d.1) edges (subst (Memᴰ e) (sym h) (Memᴰ.head refl)) in
    let loop : e ≡ (e.0, e.0) = ground (arith, eq_iff e.0 e.1) in
    (e.0, subst (λ d. Memᴰ d edges) loop m)

self_edges-none : (edges : List Edge) (id : String) → self_edges edges ≡ [] → ¬ Memᴰ (id, id) edges
unfolding self_edges
self_edges-none edges id h m =
    let found = mem-select (λ (d : Edge). d.0 == d.1) edges m (eq_refl id) in
    elim (subst (Memᴰ (id, id)) h found) [ ]

-- What an accepted call has written: `r` is its answer and the database after it. The numbers of
-- the answer are the rows that the loop over `tasks` added, the edges added, and all the rows.
pub record Accepted (tasks : List NewTask) (edges : List Edge) (db : Db) (r : CreateReply × Db)
    : Type 0 where
  pub new_rows : ℕ
  pub new_edges : ℕ
  pub reply : r.0 ≡ created new_rows new_edges (length r.1.tasks)
  pub rows_count : new_rows + length db.tasks ≡ length (seed_all tasks db.tasks)
  pub edges_count : new_edges + length db.edges ≡ length r.1.edges
  pub kept : (e : Edge) → Memᴰ e db.edges → Memᴰ e r.1.edges
  pub added : (e : Edge) → Memᴰ e edges → Memᴰ e r.1.edges

abbrev pub CreateOutcome : List NewTask → List Edge → Db → Type 0
CreateOutcome tasks edges db =
    (IsError (create_task_graph tasks edges db).0
      × ((create_task_graph tasks edges db).1 ≡ db)
      × BreaksDag edges db)
    ⊎ (Accepted tasks edges db (create_task_graph tasks edges db) × (¬ BreaksDag edges db))

module _ (tasks : List NewTask) (edges : List Edge) (db : Db) where
  create_task_graph-Accepted :
      self_edges edges ≡ []
      → would_cycle (db.edges ++ edges) ≡ false
      → Accepted tasks edges db (create_task_graph tasks edges db)
  unfolding create_task_graph
  create_task_graph-Accepted h c =
      rw (h, create_task_graph, c)
        (record {
          new_rows = created_by tasks db.tasks;
          new_edges = edges_added_by edges (seeded tasks db);
          reply = refl;
          rows_count = sym (length-seed_all tasks db.tasks);
          edges_count = sym (length-link_all edges (seeded tasks db));
          kept = λ e m. link_all-keeps edges (seeded tasks db) m;
          added = λ e m. link_all-mem edges (seeded tasks db) m;
        })

  -- create_task_graph either answers an error and leaves the database alone, and then some edge
  -- is a self-edge or the old and new edges together have a cycle; or it answers the counts of
  -- what it added, with every old and every new edge in the table, and neither is the case.
  pub create_task_graph_lem : CreateOutcome tasks edges db
  create_task_graph_lem = elim (List-cases (self_edges edges)) [
    | inr (e, es, h) ↦
        rw (create_task_graph_self tasks edges db e es h)
          (inl (tt, refl, inl (self_edges-mem edges e es h)))
    | inl h ↦ elim (Bool-cases (would_cycle (db.edges ++ edges))) [
      | inl c ↦
          rw (create_task_graph_cycle tasks edges db h c)
            (inl (tt, refl, inr ((would_cycle_iff _).0 c)))
      | inr c ↦ inr (
        create_task_graph-Accepted h c,
        λ broken. elim broken [
          | inl (id, m) ↦ self_edges-none edges id h m
          | inr found ↦ cc ((would_cycle_iff _).1 found)
        ],
      )
    ]
  ]
