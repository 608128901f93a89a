-- ===== src/TaskGraph/Cycle/Walk.antt =====
-- Walks along the edges, and the lemmas on the adjacency of graph.py's `_would_cycle`.
use mathlib.Core.WellFounded.{Acc}
use youk.Prelude.Memᴰ
use youk.Prelude.{
  String, ◌≡◌, sym, ap, subst, false, List, [], ◌∷◌, Memᴰ, ◌==◌, eq_iff, inl, inr, Bool-cases,
}
use youk.TaskGraph.Cycle.{Edge, targets, without, adj_keys}

-- A path of one edge or more.
pub data Walk (es : List Edge) : String → String → Type 0 where
  edge : {p c : String} → Memᴰ (p, c) es → Walk es p c
  step : {p c d : String} → Memᴰ (p, c) es → Walk es c d → Walk es p d

pub Walk-snoc : {es : List Edge} {p c d : String} → Walk es p c → Memᴰ (c, d) es → Walk es p d
Walk-snoc (edge m) n = step m (edge n)
Walk-snoc (step m w) n = step m (Walk-snoc w n)

pub Walk-trans : {es : List Edge} {p c d : String} → Walk es p c → Walk es c d → Walk es p d
Walk-trans (edge m) w = step m w
Walk-trans (step m v) w = step m (Walk-trans v w)

-- `c` is a child of `p`.
abbrev pub Child : List Edge → String → String → Type 0
Child es c p = Memᴰ (p, c) es

-- No walk along the edges below `n` goes on for ever.
abbrev pub Safe : List Edge → String → Type 0
Safe es = Acc (Child es)

pub Safe-below : {es : List Edge} {p c : String} → Walk es p c → Safe es p → Safe es c
Safe-below (edge m) (Acc.intro _ below) = below _ m
Safe-below (step m w) (Acc.intro _ below) = Safe-below w (below _ m)

pub Safe-not-Walk : {es : List Edge} {n : String} → Safe es n → ¬ Walk es n n
Safe-not-Walk (Acc.intro _ below) (edge m) = Safe-not-Walk (below _ m) (edge m)
Safe-not-Walk (Acc.intro _ below) (step m w) = Safe-not-Walk (below _ m) (Walk-snoc w m)

pub mem-targets : {p c : String} (es : List Edge) → Memᴰ (p, c) es → Memᴰ c (targets es p)
unfolding targets
mem-targets [] m = elim m [ ]
mem-targets {p} ((q, d) ∷ es) (Memᴰ.head e) =
    let same : q ≡ p = ap (λ (x : Edge). x.0) (sym e) in
    rw ((eq_iff q p).1 same) (Memᴰ.head (ap (λ (x : Edge). x.1) e))
mem-targets {p} ((q, d) ∷ es) (Memᴰ.tail m) = elim (Bool-cases (q == p)) [
  | inl same ↦ rw same (Memᴰ.tail (mem-targets es m))
  | inr other ↦ rw other (mem-targets es m)
]

pub targets-mem : {p c : String} (es : List Edge) → Memᴰ c (targets es p) → Memᴰ (p, c) es
unfolding targets
targets-mem [] m = elim m [ ]
targets-mem {p} {c} ((q, d) ∷ es) m = elim (Bool-cases (q == p)) [
  | inl same ↦
      let m' : Memᴰ c (d ∷ targets es p) = rw same at m in
      elim (Memᴰ.cases_cons m') [
        | inl e ↦ Memᴰ.head (cc (e, (eq_iff q p).0 same))
        | inr later ↦ Memᴰ.tail (targets-mem es later)
      ]
  | inr other ↦ Memᴰ.tail (targets-mem es (rw other at m))
]

pub mem-without :
    (n m : String) (ms : List String) → (n == m) ≡ false → Memᴰ m ms → Memᴰ m (without n ms)
unfolding without
mem-without n m [] ne h = elim h [ ]
mem-without n m (k ∷ ms) ne (Memᴰ.head e) =
    let ne' : (n == k) ≡ false = subst (λ (x : String). (n == x) ≡ false) e ne in
    rw ne' (Memᴰ.head e)
mem-without n m (k ∷ ms) ne (Memᴰ.tail h) = elim (Bool-cases (n == k)) [
  | inl same ↦ rw same (mem-without n m ms ne h)
  | inr other ↦ rw other (Memᴰ.tail (mem-without n m ms ne h))
]

-- Each parent of an edge is a root of the search.
pub mem-adj_keys : {p c : String} (es : List Edge) → Memᴰ (p, c) es → Memᴰ p (adj_keys es)
unfolding adj_keys
mem-adj_keys [] m = elim m [ ]
mem-adj_keys ((q, d) ∷ es) (Memᴰ.head e) = Memᴰ.head (ap (λ (x : Edge). x.0) e)
mem-adj_keys {p} ((q, d) ∷ es) (Memᴰ.tail m) = elim (Bool-cases (q == p)) [
  | inl same ↦ Memᴰ.head (sym ((eq_iff q p).0 same))
  | inr other ↦ Memᴰ.tail (mem-without q p (adj_keys es) other (mem-adj_keys es m))
]

pub without-mem : (n : String) {m : String} (ms : List String) → Memᴰ m (without n ms) → Memᴰ m ms
unfolding without
without-mem n [] h = elim h [ ]
without-mem n (k ∷ ms) h = elim (Bool-cases (n == k)) [
  | inl same ↦ Memᴰ.tail (without-mem n ms (rw same at h))
  | inr other ↦ elim (Memᴰ.cases_cons (rw other at h)) [
    | inl e ↦ Memᴰ.head e
    | inr later ↦ Memᴰ.tail (without-mem n ms later)
  ]
]

pub adj_keys-mem :
    {p : String} (es : List Edge) → Memᴰ p (adj_keys es) → (c : String) × Memᴰ (p, c) es
unfolding adj_keys
adj_keys-mem [] h = elim h [ ]
adj_keys-mem ((q, d) ∷ es) (Memᴰ.head e) = (d, Memᴰ.head (ap (λ x. (x, d)) e))
adj_keys-mem ((q, d) ∷ es) (Memᴰ.tail h) =
    let (c, i) = adj_keys-mem es (without-mem q (adj_keys es) h) in (c, Memᴰ.tail i)
