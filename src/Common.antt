-- ===== src/Common.antt =====
-- The names that the other modules share: numbers, lists, options, tests, signed integers, and the
-- results of code that can fail. It models no file of the program by itself.
mod Tests
mod Lists
mod Items
mod Results
pub mod Int
pub use Tests.*
pub use Lists.*
pub use Items.*
pub use Results.*
pub use Prim.Native.Nat.{ℕ, zero, suc, ◌+◌, ◌-◌, ◌*◌, ◌/◌, ◌%◌, ◌^◌, ◌≤◌, ◌<◌}
pub use mathlib.Core.Path.{◌≡◌, refl, sym, ap, ap₂, subst, ◌∙◌}
pub use mathlib.Core.Logic.{◌≢◌, ◌↔◌, ◌⊎◌, inl, inr}
pub use mathlib.Core.Bool.{Bool, true, false, not, ◌&&◌, ◌||◌}
pub use mathlib.Core.Option.{Option, none, some}
pub use mathlib.Core.List.{
  List, [], ◌∷◌, ◌++◌, map, reverse, append-nil, append_assoc, map-append, reverse-cons,
}
pub use native.Mathlib.Omega.{arith}
