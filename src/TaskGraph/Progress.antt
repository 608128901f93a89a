-- ===== src/TaskGraph/Progress.antt =====
-- A valid task graph of graph.py does not deadlock: while work is left, next_task finds some.
use Prim.Native.Nat.add
use native.Mathlib.Nat.{add_comm}
use mathlib.Core.WellFounded.{Acc}
use youk.Prelude.Memᴰ
use youk.Prelude.{
  ℕ, zero, suc, ◌+◌, String, Bool, true, false, Option, none, List, [], ◌∷◌, ◌≡◌, inl, inr, refl,
  sym, subst, Memᴰ, Bool-cases, map, any,
}
use youk.TaskGraph.Cycle.{Edge, targets}
use youk.TaskGraph.Cycle.Walk.{Safe, mem-targets, targets-mem}
use youk.TaskGraph.Store.{Task, Db}
use youk.TaskGraph.Gates.{next_task, open_parent}
use youk.TaskGraph.Valid.{IsValid}
use youk.TaskGraph.Next.{
  IsReady, IsCollation, next_task-Answers, Answers, ready, nothing, NoOpenParent-ParentsDone,
  OpenParent-found,
}

-- Walks down from `n` have at most `k` edges.
abbrev Below : List Edge → ℕ → String → Type 0
Below es zero n = (c : String) → ¬ Memᴰ (n, c) es
Below es (suc k) n = (c : String) → Memᴰ (n, c) es → Below es k c

-- There is a walk of `k` edges down from `n`.
abbrev Chain : List Edge → ℕ → String → Type 0
Chain es zero n = Unit {0}
Chain es (suc k) n = (c : String) × Memᴰ (n, c) es × Chain es k c

Below-not-Chain : (es : List Edge) (k : ℕ) (n : String) → Below es k n → ¬ Chain es (suc k) n
Below-not-Chain es zero n b (c, m, rest) = b c m
Below-not-Chain es (suc k) n b (c, m, rest) = Below-not-Chain es k c (b c m) rest

Below-add : (es : List Edge) (k : ℕ) (n : String) → Below es k n → Below es (suc k) n
Below-add es zero n b c m = absurd (b c m)
Below-add es (suc k) n b c m = Below-add es k c (b c m)

Below-plus : (es : List Edge) (j k : ℕ) (n : String) → Below es k n → Below es (j + k) n
Below-plus es zero k n b = rw (add.zero k) b
Below-plus es (suc j) k n b = rw (add.suc j k) (Below-add es (j + k) n (Below-plus es j k n b))

-- One bound serves a whole list.
Below-all :
    (es : List Edge) (ns : List String)
    → ((n : String) → Memᴰ n ns → (k : ℕ) × Below es k n)
    → (k : ℕ) × ((n : String) → Memᴰ n ns → Below es k n)
Below-all es [] each = (0, λ n m. elim m [ ])
Below-all es (n ∷ ns) each =
    let (k, b) = each n (Memᴰ.head refl) in
    let (j, all) = Below-all es ns (λ m i. each m (Memᴰ.tail i)) in
    (
      j + k,
      λ m i. elim (Memᴰ.cases_cons i) [
        | inl e ↦ subst (Below es (j + k)) (sym e) (Below-plus es j k n b)
        | inr later ↦ subst (λ x. Below es x m) (add_comm k j) (Below-plus es k j m (all m later))
      ],
    )

Safe-Below : {es : List Edge} {n : String} → Safe es n → (k : ℕ) × Below es k n
Safe-Below {es} (Acc.intro n below) =
    let (k, all) = Below-all es (targets es n) (λ c m. Safe-Below (below c (targets-mem es m))) in
    (suc k, λ c m. all c (mem-targets es m))

module _ (db : Db)
    (idle : (t : Task)
      → Memᴰ t db.tasks
      → t.done ≡ false
      → (t.unblocked ≡ true) × (t.in_flight ≡ false))
    (none_ready : (t : Task) → Memᴰ t db.tasks → ¬ IsReady none db t) where
  -- A row that is not done has a parent that is not done.
  undone_parent :
      (t : Task)
      → Memᴰ t db.tasks
      → t.done ≡ false
      → (p : Task) × Memᴰ p db.tasks × Memᴰ (p.id, t.id) db.edges × (p.done ≡ false)
  undone_parent t m undone = elim (Bool-cases (any (open_parent db.tasks t.id) db.edges)) [
    | inl found ↦ OpenParent-found db t.id found
    | inr clear ↦
        let (free, still) = idle t m undone in
        absurd (
          none_ready t m (record {
            unblocked = free;
            idle = still;
            unfinished = undone;
            parents = NoOpenParent-ParentsDone db t.id clear;
            owned = inl refl;
          }))
  ]

  climb :
      (k : ℕ) (t : Task)
      → Memᴰ t db.tasks
      → t.done ≡ false
      → (p : Task) × Memᴰ p db.tasks × (p.done ≡ false) × Chain db.edges k p.id
  climb zero t m undone = (t, m, undone, tt)
  climb (suc k) t m undone =
      let (p, i, open_p, chain) = climb k t m undone in
      let (q, j, link, open_q) = undone_parent p i open_p in (q, j, open_q, (p.id, link, chain))

  all_done : IsValid db → (t : Task) → Memᴰ t db.tasks → t.done ≡ true
  all_done v t m = elim (Bool-cases t.done) [
    | inl done ↦ done
    | inr undone ↦
        let (k, bounded) =
          Below-all db.edges (map (λ (r : Task). r.id) db.tasks) (λ n _. Safe-Below (v.dag n)) in
        let (p, i, open_p, chain) = climb (suc k) t m undone in
        absurd
          (Below-not-Chain db.edges k p.id (bounded p.id (Memᴰ.map (λ (r : Task). r.id) i)) chain)
  ]

-- In a valid database where each unfinished row has its gates cleared and nobody works on it,
-- next_task without a project answers "not found" only when every row is done.
pub next_task-progress :
    (le : String → String → Bool) (db : Db)
    → IsCollation le
    → IsValid db
    → ((t : Task) → Memᴰ t db.tasks → t.done ≡ false → (t.unblocked ≡ true) × (t.in_flight ≡ false))
    → next_task le none db ≡ none
    → (t : Task) → Memᴰ t db.tasks
    → t.done ≡ true
next_task-progress le db c v idle stuck =
    all_done db idle (none-ready (next_task-Answers le c none db) stuck) v
  where
    none-ready :
        {o : Option Task}
        → Answers le none db o
        → o ≡ none
        → (t : Task) → Memᴰ t db.tasks
        → ¬ IsReady none db t
    none-ready (nothing free) e = free
    none-ready (ready m r least) e = absurd (cc)
