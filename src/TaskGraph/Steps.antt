-- ===== src/TaskGraph/Steps.antt =====
-- create_task_graph of graph.py keeps the invariant of the database.
use mathlib.Core.WellFounded.{Acc}
use youk.Prelude.Memᴰ
use youk.Prelude.{
  String, true, false, Option, List, [], ◌∷◌, ◌++◌, ◌≡◌, ◌⊎◌, inl, inr, refl, sym, subst, arith,
  Memᴰ, Bool-cases, List-cases,
}
use youk.TaskGraph.Cycle.{Edge, would_cycle}
use youk.TaskGraph.Cycle.Walk.{Safe}
use youk.TaskGraph.Cycle.Exact.{would_cycle-Safe}
use youk.TaskGraph.Store.{Task, Db, fresh_task, stub}
use youk.TaskGraph.Create.{
  NewTask, truthy, adopt, seed, seed_all, link, link_all, self_edges, create_task_graph,
  self_edge_error, cycle_error, seeded,
}
use youk.TaskGraph.Rows.{Distinct, KeepsId, Distinct-insert_edge, mem-insert_edge}
use youk.TaskGraph.Valid.{
  IsReleased, IsTable, HasEnds, IsValid, Grows, IsTable-insert, IsTable-update, Grows-insert,
  Grows-update, IsTable-stub, Grows-stub, has_task-stub,
}

adopt-KeepsId : (p : Option String) → KeepsId (adopt p)
adopt-KeepsId p t = ground arith

adopt-IsReleased : (p : Option String) (t : Task) → IsReleased t → IsReleased (adopt p t)
adopt-IsReleased p t h = ground arith

IsTable-seed : (n : NewTask) (ts : List Task) → IsTable ts → IsTable (seed n ts)
unfolding seed
IsTable-seed n ts v =
    let inserted = IsTable-insert (fresh_task n.id n.label n.project) ts (λ _. refl) v in
    elim (Bool-cases (truthy n.project)) [
      | inl y ↦ rw y (
          IsTable-update n.id (adopt n.project) _ (adopt-KeepsId n.project)
            (adopt-IsReleased n.project) inserted)
      | inr n' ↦ rw n' inserted
    ]

Grows-seed : (n : NewTask) (ts : List Task) → Grows ts (seed n ts)
unfolding seed
Grows-seed n ts id h =
    let inserted = Grows-insert (fresh_task n.id n.label n.project) ts id h in
    elim (Bool-cases (truthy n.project)) [
      | inl y ↦ rw y (Grows-update n.id (adopt n.project) _ (adopt-KeepsId n.project) id inserted)
      | inr n' ↦ rw n' inserted
    ]

IsTable-seed_all :
    (ns : List NewTask) (ts : List Task)
    → IsTable ts
    → IsTable (seed_all ns ts) × Grows ts (seed_all ns ts)
unfolding seed_all
IsTable-seed_all [] ts v = (v, λ id h. h)
IsTable-seed_all (n ∷ ns) ts v =
    let (table, grows) = IsTable-seed_all ns (seed n ts) (IsTable-seed n ts v) in
    (table, λ id h. grows id (Grows-seed n ts id h))

-- `db'` extends `db` by edges of `es`, and keeps all of the invariant but the acyclicity.
record Links (db : Db) (es : List Edge) (db' : Db) : Type 0 where
  table : IsTable db'.tasks
  distinct : Distinct db'.edges
  ends : (e : Edge) → Memᴰ e db'.edges → HasEnds db'.tasks e
  only : (e : Edge) → Memᴰ e db'.edges → Memᴰ e db.edges ⊎ Memᴰ e es

link-Links :
    (e : Edge) (db : Db)
    → IsTable db.tasks
    → Distinct db.edges
    → ((d : Edge) → Memᴰ d db.edges → HasEnds db.tasks d)
    → Links db (e ∷ []) (link e db)
unfolding link
link-Links e db table distinct ends =
    let first = stub e.0 db.tasks in
    record {
      table = IsTable-stub e.1 first (IsTable-stub e.0 db.tasks table);
      distinct = Distinct-insert_edge e db.edges distinct;
      ends = λ d m. elim (mem-insert_edge e db.edges m) [
        | inl old ↦
            let (a, b) = ends d old in
            (
              Grows-stub e.1 first d.0 (Grows-stub e.0 db.tasks d.0 a),
              Grows-stub e.1 first d.1 (Grows-stub e.0 db.tasks d.1 b),
            )
        | inr same ↦
            subst (HasEnds (stub e.1 first)) (sym same)
              (Grows-stub e.1 first e.0 (has_task-stub e.0 db.tasks), has_task-stub e.1 first)
      ];
      only = λ d m. elim (mem-insert_edge e db.edges m) [
        | inl old ↦ inl old
        | inr same ↦ inr (Memᴰ.head same)
      ];
    }

link_all-Links :
    (es : List Edge) (db : Db)
    → IsTable db.tasks
    → Distinct db.edges
    → ((d : Edge) → Memᴰ d db.edges → HasEnds db.tasks d)
    → Links db es (link_all es db)
unfolding link_all
link_all-Links [] db table distinct ends = record {
  table = table;
  distinct = distinct;
  ends = ends;
  only = λ e m. inl m;
}
link_all-Links (e ∷ es) db table distinct ends =
    let one = link-Links e db table distinct ends in
    let all = link_all-Links es (link e db) one.table one.distinct one.ends in
    record {
      table = all.table;
      distinct = all.distinct;
      ends = all.ends;
      only = λ d m. elim (all.only d m) [
        | inl near ↦ elim (one.only d near) [
          | inl old ↦ inl old
          | inr new ↦ inr (Memᴰ.append_left es new)
        ]
        | inr later ↦ inr (Memᴰ.tail later)
      ];
    }

-- Fewer edges have fewer walks.
Safe-fewer :
    {es ds : List Edge} {n : String} → ((e : Edge) → Memᴰ e ds → Memᴰ e es) → Safe es n → Safe ds n
Safe-fewer sub (Acc.intro n below) = Acc.intro n (λ c m. Safe-fewer sub (below c (sub (n, c) m)))

-- The branches of create_task_graph.
module _ (tasks : List NewTask) (edges : List Edge) (db : Db) where
  pub create_task_graph_self :
      (e : Edge) (es : List Edge)
      → self_edges edges ≡ e ∷ es
      → create_task_graph tasks edges db ≡ (self_edge_error (e ∷ es), db)
  unfolding create_task_graph
  create_task_graph_self e es h = rw (h, create_task_graph)

  pub create_task_graph_cycle :
      self_edges edges ≡ []
      → would_cycle (db.edges ++ edges) ≡ true
      → create_task_graph tasks edges db ≡ (cycle_error, db)
  unfolding create_task_graph
  create_task_graph_cycle h c = rw (h, create_task_graph, c)

  pub create_task_graph_accept :
      self_edges edges ≡ []
      → would_cycle (db.edges ++ edges) ≡ false
      → (create_task_graph tasks edges db).1 ≡ link_all edges (seeded tasks db)
  unfolding create_task_graph
  create_task_graph_accept h c = rw (h, create_task_graph, c)

  accept-IsValid :
      would_cycle (db.edges ++ edges) ≡ false
      → IsValid db
      → IsValid (link_all edges (seeded tasks db))
  accept-IsValid c v =
      let (table, grows) = IsTable-seed_all tasks db.tasks v.table in
      let ends : (d : Edge) → Memᴰ d db.edges → HasEnds (seed_all tasks db.tasks) d =
        λ d m. let (a, b) = v.ends d m in (grows d.0 a, grows d.1 b) in
      let l = link_all-Links edges (seeded tasks db) table v.distinct ends in
      record {
        table = l.table;
        distinct = l.distinct;
        ends = l.ends;
        dag = λ n.
            Safe-fewer
              (λ e m. elim (l.only e m) [
                | inl old ↦ Memᴰ.append_left edges old
                | inr new ↦ Memᴰ.append_right db.edges new
              ])
              (would_cycle-Safe (db.edges ++ edges) c n);
      }

  pub create_task_graph-IsValid : IsValid db → IsValid (create_task_graph tasks edges db).1
  create_task_graph-IsValid v = elim (List-cases (self_edges edges)) [
    | inr (e, es, h) ↦ rw (create_task_graph_self e es h) v
    | inl h ↦ elim (Bool-cases (would_cycle (db.edges ++ edges))) [
      | inl c ↦ rw (create_task_graph_cycle h c) v
      | inr c ↦ rw (create_task_graph_accept h c) (accept-IsValid c v)
    ]
  ]
