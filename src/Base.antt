-- ===== src/Base.antt =====
-- The names that every component shares: numbers, lists, options, and the children's helpers.
mod Tests
mod Lists
mod Chain
mod Survivors
mod Bits
pub use Tests.*
pub use Lists.*
unfoldable pub use Chain.*
pub use Survivors.*
pub use Bits.*
pub use Prim.Native.Nat.{
  bit_xor, bit_and, bit_or, ℕ, zero, suc, ◌+◌, ◌-◌, ◌*◌, ◌/◌, ◌%◌, ◌^◌, ◌≤◌, ◌<◌,
}
pub use mathlib.Core.Path.{◌≡◌, refl, sym, ap, ◌∙◌, subst}
pub use mathlib.Core.Logic.{◌≢◌, ◌↔◌, ◌⊎◌, inl, inr}
pub use mathlib.Core.Bool.{Bool, true, false, not, ◌&&◌, ◌||◌}
pub use mathlib.Core.Option.{Option, none, some}
pub use mathlib.Core.List.{List, [], ◌∷◌, ◌++◌, map}
pub use native.Mathlib.Omega.{arith}
