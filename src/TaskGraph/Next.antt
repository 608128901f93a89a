-- ===== src/TaskGraph/Next.antt =====
-- next_task of graph.py: what it returns, and that a valid graph never leaves it without a task.
use youk.Prelude.Memᴰ
use youk.Prelude.{
  String, Bool, true, false, not, ◌&&◌, Option, none, some, List, [], ◌∷◌, ◌==◌, ◌≡◌, ◌⊎◌, inl, inr,
  refl, sym, ◌∙◌, ap, subst, arith, eq_iff, Memᴰ, Bool-cases, Option-cases, eq_refl, any, any-mem,
  any-false, select, select-mem, mem-select,
}
use youk.TaskGraph.Store.{Task, Db}
use youk.TaskGraph.Gates.{actionable, open_parent, in_project, first_by_id, next_task}

-- Every task that an edge puts above `t` is done.
abbrev pub ParentsDone : Db → String → Type 0
ParentsDone db id = (p : Task) → Memᴰ p db.tasks → Memᴰ (p.id, id) db.edges → p.done ≡ true

-- What "ready" means for the program, apart from how the query is written.
pub record IsReady (project : Option String) (db : Db) (t : Task) : Type 0 where
  pub unblocked : t.unblocked ≡ true
  pub idle : t.in_flight ≡ false
  pub unfinished : t.done ≡ false
  pub parents : ParentsDone db t.id
  pub owned : (project ≡ none) ⊎ (t.project ≡ project)

first_by_id-mem :
    (le : String → String → Bool) (ts : List Task) {t : Task}
    → first_by_id le ts ≡ some t
    → Memᴰ t ts
unfolding first_by_id
first_by_id-mem le [] e = cc
first_by_id-mem le (s ∷ ts) {t} e = elim (Option-cases (first_by_id le ts)) [
  | inl none_later ↦ let same : s ≡ t = ground arith in Memᴰ.head (sym same)
  | inr (u, later) ↦ elim (Bool-cases (le s.id u.id)) [
    | inl first ↦ let same : s ≡ t = ground arith in Memᴰ.head (sym same)
    | inr other ↦
        let same : u ≡ t = ground arith in Memᴰ.tail (first_by_id-mem le ts (later ∙ ap some same))
  ]
]

first_by_id-none :
    (le : String → String → Bool) (ts : List Task) → first_by_id le ts ≡ none → ts ≡ []
unfolding first_by_id
first_by_id-none le [] e = refl
first_by_id-none le (s ∷ ts) e = ground arith

-- The collation's order, as SQLite documents it for ORDER BY: total and transitive.
pub record IsCollation (le : String → String → Bool) : Type 0 where
  pub total : (a b : String) → (le a b ≡ true) ⊎ (le b a ≡ true)
  pub trans : (a b c : String) → le a b ≡ true → le b c ≡ true → le a c ≡ true

first_by_id-le :
    (le : String → String → Bool) (c : IsCollation le) (ts : List Task) {t u : Task}
    → first_by_id le ts ≡ some t
    → Memᴰ u ts
    → le t.id u.id ≡ true
unfolding first_by_id
first_by_id-le le c [] e m = elim m [ ]
first_by_id-le le c (s ∷ ts) {t} {u} e m = elim (Option-cases (first_by_id le ts)) [
  | inl empty ↦
      let only : s ≡ t = ground arith in
      let no_more : ts ≡ [] = first_by_id-none le ts empty in
      let m' : Memᴰ u (s ∷ []) = subst (λ l. Memᴰ u (s ∷ l)) no_more m in
      let here : u ≡ t = Memᴰ.eq_of_singleton m' ∙ only in
      subst (λ (x : Task). le t.id x.id ≡ true) (sym here) (le_refl t.id)
  | inr (w, later) ↦
      let below : Memᴰ u ts → le w.id u.id ≡ true = λ i. first_by_id-le le c ts later i in
      elim (Bool-cases (le s.id w.id)) [
        | inl first ↦
            let same : s ≡ t = ground arith in
            subst (λ (x : Task). le x.id u.id ≡ true) same
              (elim (Memᴰ.cases_cons m) [
                | inl e' ↦ subst (λ (x : Task). le s.id x.id ≡ true) (sym e') (le_refl s.id)
                | inr i ↦ c.trans s.id w.id u.id first (below i)
              ])
        | inr other ↦
            let same : w ≡ t = ground arith in
            let back : le w.id s.id ≡ true = ground (arith, c.total s.id w.id) in
            subst (λ (x : Task). le x.id u.id ≡ true) same
              (elim (Memᴰ.cases_cons m) [
                | inl e' ↦ subst (λ (x : Task). le w.id x.id ≡ true) (sym e') back
                | inr i ↦ below i
              ])
      ]
]
  where
    le_refl : (a : String) → le a a ≡ true
    le_refl a = ground (arith, c.total a a)

in_project_owned :
    (project owner : Option String)
    → in_project project owner ≡ true
    → (project ≡ none) ⊎ (owner ≡ project)
in_project_owned none owner e = inl refl
in_project_owned (some p) none e = cc
in_project_owned (some p) (some q) e = inr (ground (arith, eq_iff q p))

owned_in_project :
    (project owner : Option String)
    → (project ≡ none) ⊎ (owner ≡ project)
    → in_project project owner ≡ true
owned_in_project none owner e = refl
owned_in_project (some p) none e = ground arith
owned_in_project (some p) (some q) e = ground (arith, eq_iff q p)

-- The subquery: no row above `id` is unfinished.
pub NoOpenParent-ParentsDone :
    (db : Db) (id : String) → any (open_parent db.tasks id) db.edges ≡ false → ParentsDone db id
NoOpenParent-ParentsDone db id clear p m edge_in =
    let closed = any-false (open_parent db.tasks id) db.edges clear edge_in in
    let none_open : any (λ q. q.id == p.id && not q.done) db.tasks ≡ false =
      ground (arith, eq_refl id) in
    let row = any-false (λ (q : Task). q.id == p.id && not q.done) db.tasks none_open m in
    ground (arith, eq_refl p.id)

-- The other way, a row that the subquery finds is an unfinished parent.
pub OpenParent-found :
    (db : Db) (id : String)
    → any (open_parent db.tasks id) db.edges ≡ true
    → (p : Task) × Memᴰ p db.tasks × Memᴰ (p.id, id) db.edges × (p.done ≡ false)
OpenParent-found db id found =
    let (e, edge_in, open_e) = any-mem (open_parent db.tasks id) db.edges found in
    let rows : any (λ q. q.id == e.0 && not q.done) db.tasks ≡ true = ground arith in
    let (p, m, h) = any-mem (λ (q : Task). q.id == e.0 && not q.done) db.tasks rows in
    let top : p.id ≡ e.0 = ground (arith, eq_iff p.id e.0) in
    let bottom : e.1 ≡ id = ground (arith, eq_iff e.1 id) in
    let same : e ≡ (p.id, id) = ground arith in
    (p, m, subst (λ d. Memᴰ d db.edges) same edge_in, ground arith)

actionable-IsReady :
    (project : Option String) (db : Db) (t : Task)
    → actionable project db t ≡ true
    → IsReady project db t
unfolding actionable
actionable-IsReady project db t e = record {
  unblocked = ground arith;
  idle = ground arith;
  unfinished = ground arith;
  parents = NoOpenParent-ParentsDone db t.id (ground arith);
  owned = in_project_owned project t.project (ground arith);
}

IsReady-actionable :
    (project : Option String) (db : Db) (t : Task)
    → IsReady project db t
    → actionable project db t ≡ true
unfolding actionable
IsReady-actionable project db t r = elim (Bool-cases (any (open_parent db.tasks t.id) db.edges)) [
  | inl found ↦
      let (p, m, i, undone) = OpenParent-found db t.id found in let finished = r.parents p m i in cc
  | inr clear ↦ ground (arith, owned_in_project project t.project r.owned)
]

-- What next_task answers, for a collation `le`: a task that is ready, with the least id of all
-- that are; and no task exactly when none is ready.
pub data Answers (le : String → String → Bool) (project : Option String) (db : Db)
    : Option Task → Type 0 where
  ready :
      {t : Task}
      → Memᴰ t db.tasks
      → IsReady project db t
      → ((u : Task) → Memᴰ u db.tasks → IsReady project db u → le t.id u.id ≡ true)
      → Answers le project db (some t)
  nothing : ((u : Task) → Memᴰ u db.tasks → ¬ IsReady project db u) → Answers le project db none

-- For any collation `le`, next_task answers a task that is ready and whose id is the least of all
-- ready tasks' ids; or no task, and then none is ready.
pub next_task-Answers :
    (le : String → String → Bool) (c : IsCollation le) (project : Option String) (db : Db)
    → Answers le project db (next_task le project db)
unfolding next_task
next_task-Answers le c project db =
    let rows = select (actionable project db) db.tasks in
    let row = λ (u : Task) (m : Memᴰ u db.tasks) (r : IsReady project db u).
      mem-select (actionable project db) db.tasks m (IsReady-actionable project db u r) in
    elim (Option-cases (first_by_id le rows)) [
      | inl empty ↦
          let no_rows : rows ≡ [] = first_by_id-none le rows empty in
          rw empty (nothing λ u m r. elim (subst (Memᴰ u) no_rows (row u m r)) [ ])
      | inr (t, e) ↦
          let (m, h) = select-mem (actionable project db) db.tasks (first_by_id-mem le rows e) in
          rw e (
            ready m (actionable-IsReady project db t h)
              (λ u i r. first_by_id-le le c rows e (row u i r)))
    ]
