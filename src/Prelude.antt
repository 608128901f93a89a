-- ===== src/Prelude.antt =====
-- The names that the other modules share: the libraries', passed on, and those of the children.
mod Tests
mod Lists
mod Sort
mod Python
mod Order
pub use Tests.*
unfoldable pub use Lists.{any, select}
pub use Python.{Texts, within, joined}
unfoldable pub use Python.{head}
unfoldable pub use Order.{take, sort_on}
pub use Order.{
  take-mem, length-take, take_all, Sorted, nil, cons, sort_on-mem, mem-sort_on, length-sort_on,
  sort_on-Sorted, take-Sorted, take-first,
}
pub use Lists.{
  List-cases, length, length-append, any-mem, any-of_mem, any-false, any-append, select-mem,
  mem-select, select-append, select-none, select-found,
}
unfoldable pub use Sort.{sort_by, contains, set_of, difference}
pub use Sort.{
  sort_by-mem, mem-sort_by, contains-mem, mem-contains, set_of-mem, mem-set_of, difference-nil,
}
pub use Prim.Native.Nat.{ℕ, zero, suc, ◌+◌, ◌-◌, ◌≤◌, ◌<◌, max}
pub use Prim.Native.String.{String}
pub use mathlib.Core.Path.{◌≡◌, refl, sym, ap, ◌∙◌, subst}
pub use mathlib.Core.Logic.{◌≢◌, ◌↔◌, ◌⊎◌, inl, inr}
pub use mathlib.Core.Bool.{Bool, true, false, not, ◌&&◌, ◌||◌}
pub use mathlib.Core.Option.{Option, none, some}
pub use mathlib.Core.List.{List, [], ◌∷◌, ◌++◌, map}
pub use mathlib.Core.List.Memᴰ
pub use mathlib.Core.List.{Memᴰ}
pub use native.Mathlib.Omega.{arith}
pub use text.Mathlib.Text.{◌==◌}
pub use text.Mathlib.TextEquality.{eq_iff}
pub use text.Mathlib.TextPositions.{eq_refl}
