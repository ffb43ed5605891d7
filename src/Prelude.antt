-- ===== src/Prelude.antt =====
-- The names that all modules share: the libraries', passed on, and those of the children.
mod Tests
mod Lists
mod Keys
mod Maps
mod Counting
mod Reverse
mod Sorting
mod Places
pub use Tests.*
pub use Lists.*
pub use Keys.*
unfoldable pub use Maps.*
pub use Counting.*
unfoldable pub use Sorting.*
pub use Places.*
pub use Reverse.*
pub use Prim.Native.Nat.{
  ℕ, zero, suc, ◌+◌, ◌-◌, ◌*◌, ◌/◌, ◌%◌, ◌^◌, ◌≤◌, ◌<◌, min, max, compare, Ordering,
}
pub use mathlib.Core.Path.{◌≡◌, refl, sym, ap, ap₂, subst, fun_ext, ◌∙◌}
pub use mathlib.Core.Logic.{◌≢◌, ◌↔◌, ◌⊎◌, inl, inr}
pub use mathlib.Core.Bool.{Bool, true, false, not, ◌&&◌, ◌||◌}
pub use mathlib.Core.Option.{Option, none, some}
pub use mathlib.Core.List.{List, [], ◌∷◌, ◌++◌, map}
pub use native.Mathlib.Omega.{arith}
