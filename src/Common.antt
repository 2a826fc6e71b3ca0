-- ===== src/Common.antt =====
-- The names that the components share: the libraries', passed on, and those of the children below.
mod Tests
mod Lists
mod Chars
mod Strings
pub mod Decimal
pub mod ParseInt
pub mod Order
pub mod Trim
pub mod Find
pub mod Dict
pub mod Exec
pub mod Slots
unfoldable pub use Tests.*
unfoldable pub use Lists.*
unfoldable pub use Chars.*
unfoldable pub use Strings.*
pub use Prim.Native.Nat.{ℕ, zero, suc, ◌+◌, ◌-◌, ◌*◌, ◌/◌, ◌%◌, ◌^◌, ◌≤◌, ◌<◌}
pub use Prim.Native.String.{String}
pub use mathlib.Core.Path.{◌≡◌, refl, sym, ap, ◌∙◌, subst}
pub use mathlib.Core.Logic.{◌≢◌, ◌↔◌, ◌⊎◌, inl, inr}
pub use mathlib.Core.Bool.{Bool, true, false, ◌&&◌, ◌||◌, not}
pub use mathlib.Core.Option.{Option, none, some}
pub use mathlib.Core.List.{
  List, [], ◌∷◌, ◌++◌, map, reverse, append_assoc, append-nil, reverse-append, reverse-reverse,
}
pub use native.Mathlib.Omega.{arith}
