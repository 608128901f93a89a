-- ===== src/TaskGraph/Cycle/Exact.antt =====
-- `_would_cycle` of graph.py against walks along the edges.
use youk.Prelude.{◌≡◌, ◌↔◌, List, true, false, String, Bool-cases, inl, inr}
use youk.TaskGraph.Cycle.{Edge, search_cycle, would_cycle}
use youk.TaskGraph.Cycle.Walk.{Safe, Safe-not-Walk}
use youk.TaskGraph.Cycle.Clear.{search_clear-Safe, Search-cases}
use youk.TaskGraph.Cycle.Found.{Cyclic, search_cycle-Cyclic}
use youk.TaskGraph.Cycle.Fuel.{search_cycle-ne-out_of_fuel}

would_cycle-Cyclic : (es : List Edge) → would_cycle es ≡ true → Cyclic es
unfolding would_cycle
would_cycle-Cyclic es e = elim (Search-cases (search_cycle es)) [
  | inl found ↦ search_cycle-Cyclic es found
  | inr (inl (col, done)) ↦ cc
  | inr (inr out) ↦ cc
]

-- Where the test says False, every name is at the top of finite walks only.
pub would_cycle-Safe : (es : List Edge) → would_cycle es ≡ false → (n : String) → Safe es n
unfolding would_cycle
would_cycle-Safe es e n = elim (Search-cases (search_cycle es)) [
  | inl found ↦ cc
  | inr (inl (col, done)) ↦ search_clear-Safe es col done n
  | inr (inr out) ↦ absurd (search_cycle-ne-out_of_fuel es out)
]

-- `_would_cycle(edges)` is True exactly when some walk of one edge or more along `edges` comes
-- back to the name it starts from.
pub would_cycle_iff : (es : List Edge) → (would_cycle es ≡ true) ↔ Cyclic es
would_cycle_iff es = (
  would_cycle-Cyclic es,
  λ (n, w). elim (Bool-cases (would_cycle es)) [
    | inl yes_it_does ↦ yes_it_does
    | inr clean ↦ absurd (Safe-not-Walk (would_cycle-Safe es clean n) w)
  ],
)
