-- ===== src/Base.antt =====
-- The names that the other modules share: the libraries' names, passed on, and those of the
-- children: Boolean tests, int64 values, Go strings and lists over the native numbers.
mod Tests
mod Ints
mod Texts
pub mod TextOrder
mod Lists
mod Order
pub use Tests.*
unfoldable pub use Ints.*
unfoldable pub use Texts.*
unfoldable pub use Order.*
pub use Lists.*
pub use Prim.Native.Nat.{ℕ, zero, suc, max, ◌+◌, ◌-◌, ◌*◌, ◌/◌, ◌%◌, ◌^◌, ◌≤◌, ◌<◌}
pub use mathlib.Core.Path.{◌≡◌, refl, sym, ap, ◌∙◌, subst}
pub use mathlib.Core.Logic.{◌≢◌, ◌↔◌, ◌⊎◌, inl, inr}
pub use mathlib.Core.Bool.{Bool, true, false, not, ◌&&◌, ◌||◌}
pub use mathlib.Core.Option.{Option, none, some}
pub use mathlib.Core.List.{List, [], ◌∷◌, ◌++◌, map}
pub use native.Mathlib.Omega.{arith}
