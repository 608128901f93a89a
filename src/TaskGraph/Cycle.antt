-- ===== src/TaskGraph/Cycle.antt =====
-- `_would_cycle` of graph.py: the depth-first search in three colours over the edge list.
pub mod Walk
pub mod Clear
pub mod Found
pub mod Fuel
pub mod Exact
use youk.Prelude.{
  ℕ, zero, suc, String, Bool, true, false, List, [], ◌∷◌, ◌==◌, if◌then◌else◌, length,
}

-- (parent, child): the parent must complete before the child.
abbrev pub Edge : Type 0
Edge = String × String

pub data Color : Type 0 where
  white grey black : Color

-- The dictionary `color`; a name that is not in it reads as WHITE.
abbrev pub Colors : Type 0
Colors = String → Color

abbrev pub unvisited : Colors
unvisited n = white

abbrev pub paint : String → Color → Colors → Colors
paint n c col m = if n == m then c else col m

-- What a call of `visit` ends in: a back-edge was met (True), or none was (False), with the
-- colours that it leaves. `out_of_fuel` is an artefact of the recursion on fuel.
pub data Search : Type 0 where
  cycle : Search
  clear : Colors → Search
  out_of_fuel : Search

-- `adj.get(node, [])`
unfoldable pub targets : List Edge → String → List String
targets [] n = []
targets ((p, c) ∷ es) n = let rest = targets es n in if p == n then c ∷ rest else rest

unfoldable pub without : String → List String → List String
without n [] = []
without n (m ∷ ms) = let rest = without n ms in if n == m then rest else m ∷ rest

-- `list(adj)`: the parents in order of first occurrence.
unfoldable pub adj_keys : List Edge → List String
unfolding without
adj_keys [] = []
adj_keys ((p, c) ∷ es) = p ∷ without p (adj_keys es)

-- The loop `for nxt in adj.get(node, [])`; `v` is the recursive call.
unfoldable pub visit_targets : (String → Colors → Search) → List String → Colors → Search
visit_targets v [] col = clear col
visit_targets v (n ∷ ns) col = elim (col n) [
  | grey ↦ cycle
  | white ↦ elim (v n col) [
    | clear col' ↦ visit_targets v ns col'
    | cycle ↦ cycle
    | out_of_fuel ↦ out_of_fuel
  ]
  | black ↦ visit_targets v ns col
]

abbrev pub blacken : String → Search → Search
blacken n (clear col) = clear (paint n black col)
blacken n cycle = cycle
blacken n out_of_fuel = out_of_fuel

unfoldable pub visit : ℕ → List Edge → String → Colors → Search
visit zero es n col = out_of_fuel
visit (suc f) es n col = blacken n (visit_targets (visit f es) (targets es n) (paint n grey col))

-- `any(color.get(n, WHITE) == WHITE and visit(n) for n in list(adj))`
unfoldable pub visit_roots : (String → Colors → Search) → List String → Colors → Search
visit_roots v [] col = clear col
visit_roots v (n ∷ ns) col = elim (col n) [
  | white ↦ elim (v n col) [
    | clear col' ↦ visit_roots v ns col'
    | cycle ↦ cycle
    | out_of_fuel ↦ out_of_fuel
  ]
  | grey ↦ visit_roots v ns col
  | black ↦ visit_roots v ns col
]

-- Every name that an edge mentions.
unfoldable pub endpoints : List Edge → List String
endpoints [] = []
endpoints ((p, c) ∷ es) = p ∷ c ∷ endpoints es

-- More rounds than there are names, so that the fuel lasts.
abbrev pub fuel_for : List Edge → ℕ
unfolding endpoints
fuel_for es = suc (length (endpoints es))

unfoldable pub search_cycle : List Edge → Search
unfolding visit_roots visit visit_targets targets adj_keys endpoints
search_cycle es = visit_roots (visit (fuel_for es) es) (adj_keys es) unvisited

abbrev is_cycle : Search → Bool
is_cycle cycle = true
is_cycle (clear col) = false
is_cycle out_of_fuel = false

unfoldable pub would_cycle : List Edge → Bool
unfolding search_cycle
would_cycle es = is_cycle (search_cycle es)
