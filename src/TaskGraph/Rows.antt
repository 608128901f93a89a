-- ===== src/TaskGraph/Rows.antt =====
-- Lemmas on the rows of the tables of graph.py under INSERT OR IGNORE and UPDATE.
use mathlib.Core.Option
use youk.Prelude.Memᴰ
use youk.Prelude.{
  String, true, false, ◌||◌, Option, none, some, List, [], ◌∷◌, ◌++◌, ◌==◌, if◌then◌else◌, ◌≡◌, ◌⊎◌,
  inl, inr, refl, sym, ◌∙◌, arith, eq_iff, Memᴰ, Bool-cases,
}
use youk.TaskGraph.Cycle.{Edge}
use youk.TaskGraph.Store.{
  Task, has_task, insert_task, update_task, has_edge, edge_eq, insert_edge, find_task,
}

-- No two rows have one id.
abbrev pub Unique : List Task → Type 0
Unique [] = Unit
Unique (t ∷ ts) = (has_task t.id ts ≡ false) × Unique ts

abbrev pub Distinct : List Edge → Type 0
Distinct [] = Unit
Distinct (e ∷ es) = (has_edge e es ≡ false) × Distinct es

abbrev pub KeepsId : (Task → Task) → Type 0
KeepsId f = (t : Task) → (f t).id ≡ t.id

pub has_task-append :
    (id : String) (ts us : List Task) → has_task id (ts ++ us) ≡ (has_task id ts || has_task id us)
unfolding has_task
has_task-append id [] us = refl
has_task-append id (t ∷ ts) us = ground (arith, has_task-append id ts us)

pub has_task-insert_task :
    (id : String) (t : Task) (ts : List Task)
    → has_task id (insert_task t ts) ≡ (t.id == id || has_task id ts)
unfolding insert_task
has_task-insert_task id t ts = elim (Bool-cases (has_task t.id ts)) [
  | inl old ↦ rw old (ground (arith, eq_iff t.id id))
  | inr new ↦ rw new (rw has_task-append (ground arith))
]

pub has_task-update_task :
    (id j : String) (f : Task → Task) (ts : List Task)
    → KeepsId f
    → has_task id (update_task j f ts) ≡ has_task id ts
unfolding has_task update_task
has_task-update_task id j f [] keep = refl
has_task-update_task id j f (t ∷ ts) keep =
    ground (arith, keep t, has_task-update_task id j f ts keep)

pub Unique-update_task :
    (j : String) (f : Task → Task) (ts : List Task)
    → KeepsId f
    → Unique ts
    → Unique (update_task j f ts)
unfolding update_task
Unique-update_task j f [] keep u = tt
Unique-update_task j f (t ∷ ts) keep u = (
  rw (has_task-update_task _ j f ts keep) (ground (arith, keep t)),
  Unique-update_task j f ts keep u.1,
)

Unique-snoc :
    (t : Task) (ts : List Task) → has_task t.id ts ≡ false → Unique ts → Unique (ts ++ t ∷ [])
unfolding has_task
Unique-snoc t [] new u = (refl, tt)
Unique-snoc t (s ∷ ts) new u = (
  rw has_task-append (ground (arith, eq_iff s.id t.id, eq_iff t.id s.id)),
  Unique-snoc t ts (ground arith) u.1,
)

pub Unique-insert_task : (t : Task) (ts : List Task) → Unique ts → Unique (insert_task t ts)
unfolding insert_task
Unique-insert_task t ts u = elim (Bool-cases (has_task t.id ts)) [
  | inl old ↦ rw old u
  | inr new ↦ rw new (Unique-snoc t ts new u)
]

pub mem-insert_task :
    {t : Task} (u : Task) (ts : List Task) → Memᴰ t (insert_task u ts) → Memᴰ t ts ⊎ (t ≡ u)
unfolding insert_task
mem-insert_task u ts m = elim (Bool-cases (has_task u.id ts)) [
  | inl old ↦ inl (rw old at m)
  | inr new ↦ elim (Memᴰ.append_cases ts (rw new at m)) [
    | inl i ↦ inl i
    | inr i ↦ inr (Memᴰ.eq_of_singleton i)
  ]
]

pub mem-update_task :
    {t : Task} (j : String) (f : Task → Task) (ts : List Task)
    → Memᴰ t (update_task j f ts)
    → Memᴰ t ts ⊎ ((u : Task) × Memᴰ u ts × (t ≡ f u))
unfolding update_task
mem-update_task j f [] m = elim m [ ]
mem-update_task j f (s ∷ ts) (Memᴰ.head e) = elim (Bool-cases (s.id == j)) [
  | inl same ↦ inr (s, Memᴰ.head refl, e ∙ (rw same))
  | inr other ↦ inl (Memᴰ.head (e ∙ (rw other)))
]
mem-update_task j f (s ∷ ts) (Memᴰ.tail m) = elim (mem-update_task j f ts m) [
  | inl i ↦ inl (Memᴰ.tail i)
  | inr (u, i, e) ↦ inr (u, Memᴰ.tail i, e)
]

-- The lookup by primary key, after each statement.
pub find_task-update_task :
    (id j : String) (f : Task → Task) (ts : List Task)
    → KeepsId f
    → find_task id (update_task j f ts)
      ≡ (if j == id then Option.map f (find_task id ts) else find_task id ts)
unfolding find_task update_task
find_task-update_task id j f [] keep = ground arith
find_task-update_task id j f (t ∷ ts) keep = ground (
  arith,
  keep t,
  eq_iff t.id j,
  eq_iff t.id id,
  eq_iff j id,
  find_task-update_task id j f ts keep,
)

find_task-append :
    (id : String) (ts us : List Task)
    → find_task id (ts ++ us) ≡ (if has_task id ts then find_task id ts else find_task id us)
unfolding find_task has_task
find_task-append id [] us = refl
find_task-append id (t ∷ ts) us = ground (arith, find_task-append id ts us)

find_task-eq-none : (id : String) (ts : List Task) → has_task id ts ≡ false → find_task id ts ≡ none
unfolding find_task has_task
find_task-eq-none id [] h = refl
find_task-eq-none id (t ∷ ts) h = ground (arith, find_task-eq-none id ts)

abbrev pub or_row : Option Task → Option Task → Option Task
or_row none o = o
or_row (some t) o = some t

find_task_found :
    (id : String) (ts : List Task) → has_task id ts ≡ true → (t : Task) × (find_task id ts ≡ some t)
unfolding find_task has_task
find_task_found id [] h = cc
find_task_found id (t ∷ ts) h = elim (Bool-cases (t.id == id)) [
  | inl here ↦ (t, rw here)
  | inr other ↦ rw other (find_task_found id ts (ground arith))
]

-- A row with that id stays, and else the new row answers.
pub find_task-insert_task :
    (id : String) (t : Task) (ts : List Task)
    → find_task id (insert_task t ts)
      ≡ or_row (find_task id ts) (if t.id == id then some t else none)
unfolding insert_task
find_task-insert_task id t ts = elim (Bool-cases (has_task id ts)) [
  | inl old ↦
      let (r, e) = find_task_found id ts old in ground (arith, find_task-append id ts (t ∷ []))
  | inr new ↦ rw (find_task-eq-none id ts new) (elim (Bool-cases (has_task t.id ts)) [
    | inl taken ↦ ground (arith, eq_iff t.id id, find_task-eq-none id ts)
    | inr room ↦ rw room (rw (find_task-append, new) (unfold find_task in refl))
  ])
]

edge_eq_sound : (d e : Edge) → edge_eq d e ≡ true → d ≡ e
edge_eq_sound (a, b) (c, d) h = ground (arith, eq_iff a c, eq_iff b d)

pub has_edge-append :
    (e : Edge) (ds es : List Edge) → has_edge e (ds ++ es) ≡ (has_edge e ds || has_edge e es)
unfolding has_edge
has_edge-append e [] es = refl
has_edge-append e (d ∷ ds) es = ground (arith, has_edge-append e ds es)

edge_eq_sym : (d e : Edge) → edge_eq d e ≡ false → edge_eq e d ≡ false
edge_eq_sym (a, b) (c, d) h = ground (arith, eq_iff a c, eq_iff b d, eq_iff c a, eq_iff d b)

Distinct-snoc :
    (e : Edge) (es : List Edge) → has_edge e es ≡ false → Distinct es → Distinct (es ++ e ∷ [])
unfolding has_edge
Distinct-snoc e [] new u = (refl, tt)
Distinct-snoc e (d ∷ es) new u =
    (rw has_edge-append (ground (arith, edge_eq_sym d e)), Distinct-snoc e es (ground arith) u.1)

pub Distinct-insert_edge : (e : Edge) (es : List Edge) → Distinct es → Distinct (insert_edge e es)
unfolding insert_edge
Distinct-insert_edge e es u = elim (Bool-cases (has_edge e es)) [
  | inl old ↦ rw old u
  | inr new ↦ rw new (Distinct-snoc e es new u)
]

pub mem-insert_edge :
    {d : Edge} (e : Edge) (es : List Edge) → Memᴰ d (insert_edge e es) → Memᴰ d es ⊎ (d ≡ e)
unfolding insert_edge
mem-insert_edge e es m = elim (Bool-cases (has_edge e es)) [
  | inl old ↦ inl (rw old at m)
  | inr new ↦ elim (Memᴰ.append_cases es (rw new at m)) [
    | inl i ↦ inl i
    | inr i ↦ inr (Memᴰ.eq_of_singleton i)
  ]
]

has_edge-mem : (e : Edge) (es : List Edge) → has_edge e es ≡ true → Memᴰ e es
unfolding has_edge
has_edge-mem e [] h = cc
has_edge-mem e (d ∷ es) h = elim (Bool-cases (edge_eq d e)) [
  | inl same ↦ Memᴰ.head (sym (edge_eq_sound d e same))
  | inr other ↦ Memᴰ.tail (has_edge-mem e es (ground arith))
]

-- After the statement the edge is in the table, and so is all that was there.
pub insert_edge-mem : (e : Edge) (es : List Edge) → Memᴰ e (insert_edge e es)
unfolding insert_edge
insert_edge-mem e es = elim (Bool-cases (has_edge e es)) [
  | inl old ↦ rw old (has_edge-mem e es old)
  | inr new ↦ rw new (Memᴰ.append_right es (Memᴰ.head refl))
]

pub insert_edge-keeps :
    {d : Edge} (e : Edge) (es : List Edge) → Memᴰ d es → Memᴰ d (insert_edge e es)
unfolding insert_edge
insert_edge-keeps e es m = elim (Bool-cases (has_edge e es)) [
  | inl old ↦ rw old m
  | inr new ↦ rw new (Memᴰ.append_left (e ∷ []) m)
]
