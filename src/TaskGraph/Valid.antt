-- ===== src/TaskGraph/Valid.antt =====
-- The invariant of the database of graph.py, and the SQL statements under it.
use youk.Prelude.{
  String, true, false, none, List, ◌≡◌, inl, inr, refl, sym, ◌∙◌, subst, arith, Memᴰ, eq_refl,
}
use youk.TaskGraph.Cycle.{Edge}
use youk.TaskGraph.Cycle.Walk.{Safe}
use youk.TaskGraph.Store.{Task, Db, fresh_task, has_task, insert_task, update_task, stub}
use youk.TaskGraph.Rows.{
  Unique, Distinct, KeepsId, has_task-insert_task, has_task-update_task, Unique-update_task,
  Unique-insert_task, mem-insert_task, mem-update_task,
}

-- A row that is not in flight carries no session's claim.
abbrev pub IsReleased : Task → Type 0
IsReleased t = t.in_flight ≡ false → t.session_id ≡ none

-- What holds of the table `tasks` alone.
pub record IsTable (ts : List Task) : Type 0 where
  pub unique : Unique ts
  pub released : (t : Task) → Memᴰ t ts → IsReleased t

abbrev pub HasEnds : List Task → Edge → Type 0
HasEnds ts e = (has_task e.0 ts ≡ true) × (has_task e.1 ts ≡ true)

pub record IsValid (db : Db) : Type 0 where
  pub table : IsTable db.tasks
  pub distinct : Distinct db.edges
  pub ends : (e : Edge) → Memᴰ e db.edges → HasEnds db.tasks e
  pub dag : (id : String) → Safe db.edges id

-- No row is lost: the ids of `ts` are ids of `us`.
abbrev pub Grows : List Task → List Task → Type 0
Grows ts us = (id : String) → has_task id ts ≡ true → has_task id us ≡ true

pub IsTable-insert :
    (t : Task) (ts : List Task) → IsReleased t → IsTable ts → IsTable (insert_task t ts)
IsTable-insert t ts free v = record {
  unique = Unique-insert_task t ts v.unique;
  released = λ u m. elim (mem-insert_task t ts m) [
    | inl i ↦ v.released u i
    | inr e ↦ subst IsReleased (sym e) free
  ];
}

pub IsTable-update :
    (id : String) (f : Task → Task) (ts : List Task)
    → KeepsId f
    → ((t : Task) → IsReleased t → IsReleased (f t))
    → IsTable ts
    → IsTable (update_task id f ts)
IsTable-update id f ts keep free v = record {
  unique = Unique-update_task id f ts keep v.unique;
  released = λ u m. elim (mem-update_task id f ts m) [
    | inl i ↦ v.released u i
    | inr (w, i, e) ↦ subst IsReleased (sym e) (free w (v.released w i))
  ];
}

pub Grows-insert : (t : Task) (ts : List Task) → Grows ts (insert_task t ts)
Grows-insert t ts id h = rw has_task-insert_task (ground arith)

pub Grows-update :
    (j : String) (f : Task → Task) (ts : List Task) → KeepsId f → Grows ts (update_task j f ts)
Grows-update j f ts keep id h = has_task-update_task id j f ts keep ∙ h

pub IsTable-stub : (id : String) (ts : List Task) → IsTable ts → IsTable (stub id ts)
unfolding stub
IsTable-stub id ts = IsTable-insert (fresh_task id id none) ts (λ _. refl)

pub Grows-stub : (id : String) (ts : List Task) → Grows ts (stub id ts)
unfolding stub
Grows-stub id ts = Grows-insert (fresh_task id id none) ts

-- The stub is there.
pub has_task-stub : (id : String) (ts : List Task) → has_task id (stub id ts) ≡ true
unfolding stub
has_task-stub id ts = rw has_task-insert_task (rw eq_refl)

-- An operation that touches only `tasks`.
pub IsValid-tasks :
    (db : Db) (ts : List Task)
    → IsTable ts
    → Grows db.tasks ts
    → IsValid db
    → IsValid (record db { tasks = ts })
IsValid-tasks db ts table grows v = record {
  table = table;
  distinct = v.distinct;
  ends = λ e m. let (a, b) = v.ends e m in (grows e.0 a, grows e.1 b);
  dag = v.dag;
}
