-- ===== src/TaskGraph/Effects.antt =====
-- What the writing operations of graph.py do to the rows, and what next_task says afterwards.
use mathlib.Core.Option
use youk.Prelude.{
  String, Bool, true, false, Option, none, some, List, [], ◌∷◌, ◌==◌, if◌then◌else◌, ◌≡◌, ◌≢◌, ◌⊎◌,
  inl, inr, refl, sym, ◌∙◌, ap, arith, eq_iff, Memᴰ, Bool-cases, Option-cases,
}
use youk.TaskGraph.Store.{Task, Db, fresh_task, insert_task, update_task, find_task}
use youk.TaskGraph.Gates.{
  Gate, gate_of, write_gate, set_gate, start_task, claim, mark_done, finish, next_task,
}
use youk.TaskGraph.Reach.{write_gate-KeepsId}
use youk.TaskGraph.Rows.{or_row, KeepsId, find_task-update_task, find_task-insert_task}
use youk.TaskGraph.Next.{IsCollation, Answers, ready, nothing, next_task-Answers}

-- The row that an operation on `id` starts from: the one there, or else `row`.
abbrev pub row_or : Task → Option Task → Task
row_or row none = row
row_or row (some t) = t

map-or_row :
    (f : Task → Task) (row : Task) (o : Option Task)
    → Option.map f (or_row o (some row)) ≡ some (f (row_or row o))
map-or_row f row none = refl
map-or_row f row (some t) = refl

or_row-none : (o : Option Task) → or_row o none ≡ o
or_row-none none = refl
or_row-none (some t) = refl

-- A stub or a new row, then an update of it: only `id` changes.
find_task-upsert :
    (j : String) (row : Task) (f : Task → Task) (ts : List Task)
    → KeepsId f
    → find_task j (update_task row.id f (insert_task row ts))
      ≡ (if row.id == j then some (f (row_or row (find_task row.id ts))) else find_task j ts)
find_task-upsert j row f ts keep = elim (Bool-cases (row.id == j)) [
  | inl same ↦
      let here : j ≡ row.id = sym ((eq_iff row.id j).0 same) in
      find_task-update_task j row.id f (insert_task row ts) keep
      ∙ rw same (
          ap (Option.map f) (find_task-insert_task j row ts)
          ∙ rw same (rw here (map-or_row f row (find_task row.id ts))))
  | inr other ↦
      find_task-update_task j row.id f (insert_task row ts) keep
      ∙ rw other (find_task-insert_task j row ts ∙ rw other (or_row-none (find_task j ts)))
]

-- The effect of a set_gate call on gate `g`: `r` is its answer and the database after it.
pub record GateWritten (id : String) (g : Gate) (value : Bool) (session : Option String) (db : Db)
    (r : Bool × Db) : Type 0 where
  pub succeeds : r.0 ≡ true
  pub edges : r.1.edges ≡ db.edges
  pub rows :
      (j : String)
      → find_task j r.1.tasks ≡ (
          if id == j
          then some
              (write_gate g value session (row_or (fresh_task id id none) (find_task id db.tasks)))
          else find_task j db.tasks)

abbrev pub GateOutcome : String → String → Bool → Option String → Db → Type 0
GateOutcome id gate_name value session db =
    ((gate_of gate_name ≡ none) × (set_gate id gate_name value session db ≡ (false, db)))
    ⊎ ((g : Gate) × (gate_of gate_name ≡ some g)
        × GateWritten id g value session db (set_gate id gate_name value session db))

-- set_gate fails on a name outside GATE_NAMES, and then changes nothing. Else it succeeds: the row
-- `id`, a stub if there was none, has the flag (and, for `in_flight`, the session) written, every
-- other id finds the row that it found before, and the edges stay.
set_gate_lem :
    (id gate_name : String) (value : Bool) (session : Option String) (db : Db)
    → GateOutcome id gate_name value session db
unfolding set_gate
set_gate_lem id gate_name value session db = elim (Option-cases (gate_of gate_name)) [
  | inl unknown ↦ inl (unknown, rw (unknown, set_gate))
  | inr (g, known) ↦ inr (
    g,
    known,
    record {
      succeeds = rw (known, set_gate);
      edges = rw (known, set_gate);
      rows = λ j.
          rw (known, set_gate)
            (find_task-upsert j (fresh_task id id none) (write_gate g value session) db.tasks
              (write_gate-KeepsId g value session));
    },
  )
]

-- A row with that id, after an update of it, is an updated one.
mem-update_task_at :
    {t : Task} (id : String) (f : Task → Task) (ts : List Task)
    → KeepsId f
    → Memᴰ t (update_task id f ts)
    → t.id ≡ id
    → (u : Task) × (t ≡ f u)
unfolding update_task
mem-update_task_at id f [] keep m e = elim m [ ]
mem-update_task_at {t} id f (s ∷ ts) keep (Memᴰ.head h) e = elim (Bool-cases (s.id == id)) [
  | inl same ↦ (s, h ∙ rw same)
  | inr other ↦
      let row : t ≡ s = h ∙ rw other in
      let kept : t.id ≡ s.id = ap (λ (x : Task). x.id) row in
      absurd (ground (arith, eq_iff s.id id))
]
mem-update_task_at id f (s ∷ ts) keep (Memᴰ.tail m) e = mem-update_task_at id f ts keep m e

module _ (le : String → String → Bool) (c : IsCollation le) (project : Option String) where
  not_answered :
      (db : Db) (id : String)
      → ((t : Task) → Memᴰ t db.tasks → t.id ≡ id → (t.in_flight ≡ true) ⊎ (t.done ≡ true))
      → {o : Option Task} → Answers le project db o
      → {t : Task} → o ≡ some t
      → t.id ≢ id
  not_answered db id busy (ready {t = r} m is_ready least) {t} e same =
      let here : r ≡ t = ground arith in
      elim (busy r m (ap (λ (x : Task). x.id) here ∙ same)) [
        | inl flying ↦ cc (is_ready.idle)
        | inr over ↦ cc (is_ready.unfinished)
      ]
  not_answered db id busy (nothing free) e same = cc

  next_task-claimed :
      (id label owner session : String) (db : Db) {t : Task}
      → next_task le project (start_task id label owner session db) ≡ some t
      → t.id ≢ id
  unfolding start_task
  next_task-claimed id label owner session db e =
      not_answered _ id
        (λ r m same.
          let (u, k) = mem-update_task_at id (claim owner session) _ (λ x. refl) m same in
          inl (ap (λ (x : Task). x.in_flight) k))
        (next_task-Answers le c project (start_task id label owner session db)) e

  next_task-closed :
      (id : String) (db : Db) {t : Task}
      → next_task le project (mark_done id db) ≡ some t
      → t.id ≢ id
  unfolding mark_done
  next_task-closed id db e =
      not_answered _ id
        (λ r m same.
          let (u, k) = mem-update_task_at id finish _ (λ x. refl) m same in
          inr (ap (λ (x : Task). x.done) k))
        (next_task-Answers le c project (mark_done id db)) e

  -- A task that start_task has just claimed, or that mark_done has just closed, is not what
  -- next_task answers, for any project and any collation.
  pub next_task-taken :
      (id label owner session : String) (db : Db) {t : Task}
      → (next_task le project (start_task id label owner session db) ≡ some t)
        ⊎ (next_task le project (mark_done id db) ≡ some t)
      → t.id ≢ id
  next_task-taken id label owner session db (inl e) = next_task-claimed id label owner session db e
  next_task-taken id label owner session db (inr e) = next_task-closed id db e
