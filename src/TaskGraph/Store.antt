-- ===== src/TaskGraph/Store.antt =====
-- The two tables of servers/core/src/graph.py and the SQL statements on them. A `Db` is the
-- committed content, rows in rowid order.
use youk.Prelude.{
  String, Bool, false, ◌&&◌, ◌||◌, Option, none, some, List, [], ◌∷◌, ◌++◌, ◌==◌, if◌then◌else◌,
}
use youk.TaskGraph.Cycle.{Edge}

-- A row of `tasks`; an INTEGER flag is a Bool, NULL is `none`.
pub record Task : Type 0 where
  pub id : String
  pub label : String
  pub project : Option String
  pub challenge_cleared : Bool
  pub nfr_cleared : Bool
  pub unblocked : Bool
  pub in_flight : Bool
  pub session_id : Option String
  pub done : Bool
  pub stale : Bool

pub record Db : Type 0 where
  pub tasks : List Task
  pub edges : List Edge

abbrev pub empty_db : Db
empty_db = record { tasks = []; edges = [] }

-- The row that INSERT writes when it names only these columns: the others take their defaults.
abbrev pub fresh_task : String → String → Option String → Task
fresh_task id label project = record {
  id = id;
  label = label;
  project = project;
  challenge_cleared = false;
  nfr_cleared = false;
  unblocked = false;
  in_flight = false;
  session_id = none;
  done = false;
  stale = false;
}

unfoldable pub has_task : String → List Task → Bool
has_task id [] = false
has_task id (t ∷ ts) = t.id == id || has_task id ts

-- INSERT OR IGNORE INTO tasks: a row with this primary key is left alone.
unfoldable pub insert_task : Task → List Task → List Task
unfolding has_task
insert_task t ts = if has_task t.id ts then ts else ts ++ t ∷ []

-- UPDATE tasks SET … WHERE id = ?
unfoldable pub update_task : String → (Task → Task) → List Task → List Task
update_task id f [] = []
update_task id f (t ∷ ts) = (if t.id == id then f t else t) ∷ update_task id f ts

abbrev pub edge_eq : Edge → Edge → Bool
edge_eq e d = e.0 == d.0 && e.1 == d.1

unfoldable pub has_edge : Edge → List Edge → Bool
has_edge e [] = false
has_edge e (d ∷ es) = edge_eq d e || has_edge e es

unfoldable pub insert_edge : Edge → List Edge → List Edge
unfolding has_edge
insert_edge e es = if has_edge e es then es else es ++ e ∷ []

-- The row that stands in for an id that no call has created yet.
unfoldable pub stub : String → List Task → List Task
unfolding insert_task
stub id ts = insert_task (fresh_task id id none) ts

unfoldable pub find_task : String → List Task → Option Task
find_task id [] = none
find_task id (t ∷ ts) = if t.id == id then some t else find_task id ts
