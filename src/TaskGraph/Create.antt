-- ===== src/TaskGraph/Create.antt =====
-- create_task_graph of servers/core/src/graph.py.
use youk.Prelude.{
  ℕ, ◌+◌, String, Bool, true, false, not, Option, none, some, List, [], ◌∷◌, ◌++◌, ◌==◌,
  if◌then◌else◌, length, select,
}
use youk.TaskGraph.Cycle.{Edge, would_cycle}
use youk.TaskGraph.Store.{
  Task, Db, fresh_task, has_task, insert_task, update_task, has_edge, insert_edge, stub,
}

-- The argument `tasks` of create_task_graph; `t.get("project")` is `none` for a missing key.
pub record NewTask : Type 0 where
  pub id : String
  pub label : String
  pub project : Option String

-- Python's truth of an optional text.
abbrev pub truthy : Option String → Bool
truthy none = false
truthy (some s) = not (s == "")

abbrev pub is_null : Option String → Bool
is_null none = true
is_null (some s) = false

abbrev pub adopt : Option String → Task → Task
adopt project t = if is_null t.project then record t { project = project } else t

-- One round of `for t in tasks`: insert, then tag a row that had no owner.
unfoldable pub seed : NewTask → List Task → List Task
unfolding insert_task update_task
seed n ts =
    let inserted = insert_task (fresh_task n.id n.label n.project) ts in
    if truthy n.project then update_task n.id (adopt n.project) inserted else inserted

unfoldable pub seed_all : List NewTask → List Task → List Task
unfolding seed
seed_all [] ts = ts
seed_all (n ∷ ns) ts = seed_all ns (seed n ts)

-- `cur.rowcount` of an INSERT OR IGNORE.
abbrev rowcount : Bool → ℕ
rowcount present = if present then 0 else 1

-- The sum of the rowcounts over the loop.
unfoldable pub created_by : List NewTask → List Task → ℕ
unfolding seed has_task
created_by [] ts = 0
created_by (n ∷ ns) ts = rowcount (has_task n.id ts) + created_by ns (seed n ts)

-- One round of `for parent, child in edges`: stub both ends, then insert the edge.
unfoldable pub link : Edge → Db → Db
unfolding stub insert_edge
link e db = record { tasks = stub e.1 (stub e.0 db.tasks); edges = insert_edge e db.edges }

unfoldable pub link_all : List Edge → Db → Db
unfolding link
link_all [] db = db
link_all (e ∷ es) db = link_all es (link e db)

unfoldable pub edges_added_by : List Edge → Db → ℕ
unfolding link has_edge
edges_added_by [] db = 0
edges_added_by (e ∷ es) db = rowcount (has_edge e db.edges) + edges_added_by es (link e db)

unfoldable pub self_edges : List Edge → List Edge
unfolding select
self_edges = select (λ e. e.0 == e.1)

pub data CreateReply : Type 0 where
  created : (created edges_added total_tasks : ℕ) → CreateReply
  self_edge_error : List Edge → CreateReply
  cycle_error : CreateReply

-- The rows after the loop over `tasks`.
abbrev pub seeded : List NewTask → Db → Db
seeded tasks db = record db { tasks = seed_all tasks db.tasks }

-- `conn.rollback()` undoes the rows that the first loop inserted.
unfoldable pub create_task_graph : List NewTask → List Edge → Db → CreateReply × Db
unfolding self_edges seed_all created_by link_all edges_added_by
create_task_graph tasks edges db = elim (self_edges edges) [
  | e ∷ es ↦ (self_edge_error (e ∷ es), db)
  | [] ↦
      let linked = link_all edges (seeded tasks db) in
      if would_cycle (db.edges ++ edges) then (cycle_error, db) else (
        created (created_by tasks db.tasks) (edges_added_by edges (seeded tasks db))
            (length linked.tasks),
        linked,
      )
]
