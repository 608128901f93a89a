-- ===== src/TaskGraph/Reach.antt =====
-- The database of graph.py stays valid under any sequence of calls.
use mathlib.Core.WellFounded.{Acc}
use youk.Prelude.{String, Bool, Option, some, List, [], ◌∷◌, inl, inr, refl, arith, Option-cases}
use youk.TaskGraph.Cycle.{Edge}
use youk.TaskGraph.Store.{Task, Db, empty_db, fresh_task, insert_task, update_task, stub}
use youk.TaskGraph.Create.{NewTask, create_task_graph}
use youk.TaskGraph.Gates.{Gate, gate_of, write_gate, set_gate, start_task, claim, mark_done, finish}
use youk.TaskGraph.Rows.{KeepsId}
use youk.TaskGraph.Valid.{
  IsReleased, IsValid, IsTable-insert, IsTable-update, Grows-insert, Grows-update, IsTable-stub,
  Grows-stub, IsValid-tasks,
}
use youk.TaskGraph.Steps.{create_task_graph-IsValid}

pub write_gate-KeepsId :
    (g : Gate) (value : Bool) (session : Option String) → KeepsId (write_gate g value session)
unfolding write_gate
write_gate-KeepsId g value session t = ground arith

write_gate-IsReleased :
    (g : Gate) (value : Bool) (session : Option String) (t : Task)
    → IsReleased t
    → IsReleased (write_gate g value session t)
unfolding write_gate
write_gate-IsReleased g value session t h = ground arith

pub set_gate-IsValid :
    (id gate_name : String) (value : Bool) (session : Option String) (db : Db)
    → IsValid db
    → IsValid (set_gate id gate_name value session db).1
unfolding set_gate
set_gate-IsValid id gate_name value session db v = elim (Option-cases (gate_of gate_name)) [
  | inl unknown ↦ rw (unknown, set_gate) v
  | inr (g, known) ↦
      let f = write_gate g value session in
      let ts = stub id db.tasks in
      rw (known, set_gate)
        (IsValid-tasks db (update_task id f ts)
          (IsTable-update id f ts (write_gate-KeepsId g value session)
            (write_gate-IsReleased g value session) (IsTable-stub id db.tasks v.table))
          (λ j h.
            Grows-update id f ts (write_gate-KeepsId g value session) j
              (Grows-stub id db.tasks j h))
          v)
]

claim-KeepsId : (project session : String) → KeepsId (claim project session)
claim-KeepsId project session t = refl

pub start_task-IsValid :
    (id label project session : String) (db : Db)
    → IsValid db
    → IsValid (start_task id label project session db)
unfolding start_task
start_task-IsValid id label project session db v =
    let row = fresh_task id label (some project) in
    let ts = insert_task row db.tasks in
    IsValid-tasks db (update_task id (claim project session) ts)
      (IsTable-update id (claim project session) ts (claim-KeepsId project session)
        (λ t _ flying. cc) (IsTable-insert row db.tasks (λ _. refl) v.table))
      (λ j h.
        Grows-update id (claim project session) ts (claim-KeepsId project session) j
          (Grows-insert row db.tasks j h))
      v

pub mark_done-IsValid : (id : String) (db : Db) → IsValid db → IsValid (mark_done id db)
unfolding mark_done
mark_done-IsValid id db v =
    IsValid-tasks db (update_task id finish db.tasks)
      (IsTable-update id finish db.tasks (λ t. refl) (λ t _ _. refl) v.table)
      (Grows-update id finish db.tasks (λ t. refl)) v

-- The calls that write to the database.
pub data Call : Type 0 where
  create : List NewTask → List Edge → Call
  gate : (id gate_name : String) → Bool → Option String → Call
  start : (id label project session : String) → Call
  finished : (id : String) → Call

unfoldable pub perform : Call → Db → Db
unfolding create_task_graph set_gate start_task mark_done
perform (create tasks edges) db = (create_task_graph tasks edges db).1
perform (gate id gate_name value session) db = (set_gate id gate_name value session db).1
perform (start id label project session) db = start_task id label project session db
perform (finished id) db = mark_done id db

unfoldable pub perform_all : List Call → Db → Db
unfolding perform
perform_all [] db = db
perform_all (c ∷ cs) db = perform_all cs (perform c db)

perform-IsValid : (c : Call) (db : Db) → IsValid db → IsValid (perform c db)
unfolding perform
perform-IsValid (create tasks edges) db = create_task_graph-IsValid tasks edges db
perform-IsValid (gate id gate_name value session) db =
    set_gate-IsValid id gate_name value session db
perform-IsValid (start id label project session) db = start_task-IsValid id label project session db
perform-IsValid (finished id) db = mark_done-IsValid id db

-- Whatever calls of create_task_graph, set_gate, start_task and mark_done are made, in any order
-- and whether they succeed or not, a valid database stays valid: ids are unique, edges are
-- distinct and end in existing rows, no walk along the edges goes on for ever, and a row that is
-- not in flight carries no session's claim.
pub perform_all-IsValid : (cs : List Call) (db : Db) → IsValid db → IsValid (perform_all cs db)
unfolding perform_all
perform_all-IsValid [] db v = v
perform_all-IsValid (c ∷ cs) db v = perform_all-IsValid cs (perform c db) (perform-IsValid c db v)

pub empty_db-IsValid : IsValid empty_db
empty_db-IsValid = record {
  table = record { unique = tt; released = λ t m. elim m [ ] };
  distinct = tt;
  ends = λ e m. elim m [ ];
  dag = λ n. Acc.intro n (λ c m. elim m [ ]);
}
