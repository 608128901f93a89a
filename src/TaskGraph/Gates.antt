-- ===== src/TaskGraph/Gates.antt =====
-- The other operations of servers/core/src/graph.py: gates, the next task, starting and finishing.
use youk.Prelude.{
  ℕ, String, Bool, true, false, not, ◌&&◌, Option, none, some, List, [], ◌∷◌, ◌==◌, if◌then◌else◌,
  length, any, select,
}
use youk.TaskGraph.Cycle.{Edge}
use youk.TaskGraph.Store.{Task, Db, fresh_task, insert_task, update_task, find_task, stub}

-- GATE_NAMES
pub data Gate : Type 0 where
  challenge_cleared nfr_cleared unblocked in_flight : Gate

unfoldable pub gate_of : String → Option Gate
gate_of name =
    if name == "challenge_cleared"
    then some challenge_cleared
    else if name == "nfr_cleared"
    then some nfr_cleared
    else if name == "unblocked"
    then some unblocked
    else if name == "in_flight"
    then some in_flight
    else none

-- The two UPDATE statements of set_gate: the flag, and the stamp that goes with `in_flight`.
unfoldable pub write_gate : Gate → Bool → Option String → Task → Task
write_gate challenge_cleared value session t = record t { challenge_cleared = value }
write_gate nfr_cleared value session t = record t { nfr_cleared = value }
write_gate unblocked value session t = record t { unblocked = value }
write_gate in_flight value session t = record t {
  in_flight = value;
  session_id = if value then session else none;
}

-- `true` is {"ok": True}, `false` is the error of an unknown gate.
unfoldable pub set_gate : String → String → Bool → Option String → Db → Bool × Db
unfolding gate_of write_gate stub update_task
set_gate id gate_name value session db = elim (gate_of gate_name) [
  | none ↦ (false, db)
  | some gate ↦ (
    true,
    record db { tasks = update_task id (write_gate gate value session) (stub id db.tasks) },
  )
]

pub record Gates : Type 0 where
  pub found : Bool
  pub row : Option Task
  pub unblocked : Bool

-- The dictionary "gates" is the flags of the row.
unfoldable pub is_unblocked : String → Db → Gates
unfolding find_task
is_unblocked id db = elim (find_task id db.tasks) [
  | none ↦ record { found = false; row = none; unblocked = false }
  | some t ↦ record { found = true; row = some t; unblocked = t.unblocked }
]

-- The row of the JOIN: an edge into `id` from a task that is not done.
abbrev pub open_parent : List Task → String → Edge → Bool
open_parent ts id e = e.1 == id && any (λ p. p.id == e.0 && not p.done) ts

abbrev pub in_project : Option String → Option String → Bool
in_project none owner = true
in_project (some p) none = false
in_project (some p) (some q) = q == p

-- The WHERE clause of next_task.
unfoldable pub actionable : Option String → Db → Task → Bool
unfolding any
actionable project db t =
    t.unblocked
    && not t.in_flight
    && not t.done
    && not (any (open_parent db.tasks t.id) db.edges)
    && in_project project t.project

-- ORDER BY t.id LIMIT 1, for the order `le` of SQLite's collation.
unfoldable pub first_by_id : (String → String → Bool) → List Task → Option Task
first_by_id le [] = none
first_by_id le (t ∷ ts) = elim (first_by_id le ts) [
  | none ↦ some t
  | some u ↦ if le t.id u.id then some t else some u
]

unfoldable pub next_task : (String → String → Bool) → Option String → Db → Option Task
unfolding first_by_id actionable select
next_task le project db = first_by_id le (select (actionable project db) db.tasks)

abbrev pub coalesce : Option String → String → Option String
coalesce none p = some p
coalesce (some q) p = some q

abbrev pub claim : String → String → Task → Task
claim project session t = record t {
  project = coalesce t.project project;
  in_flight = true;
  done = false;
  session_id = some session;
}

unfoldable pub start_task : String → String → String → String → Db → Db
unfolding insert_task update_task
start_task id label project session db = record db {
  tasks =
      update_task id (claim project session)
        (insert_task (fresh_task id label (some project)) db.tasks);
}

abbrev pub is_open : String → Task → Bool
is_open project t = in_project (some project) t.project && not t.done

-- The rows in flight, and the count of unfinished rows.
unfoldable pub open_tasks : String → Db → List Task × ℕ
unfolding select
open_tasks project db = (
  select (λ t. is_open project t && t.in_flight) db.tasks,
  length (select (is_open project) db.tasks),
)

abbrev pub finish : Task → Task
finish t = record t { done = true; in_flight = false; session_id = none }

unfoldable pub mark_done : String → Db → Db
unfolding update_task
mark_done id db = record db { tasks = update_task id finish db.tasks }
