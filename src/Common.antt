-- ===== src/Common.antt =====
-- The names that the modules share: the library's, passed on, and those of the children.
mod Tests
mod Lists
pub mod Bits
pub mod Int
pub mod Options
pub mod Slices
pub use Tests.*
pub use Lists.*
pub use Prim.Native.Nat.{ℕ, zero, suc, ◌+◌, ◌-◌, ◌*◌, ◌/◌, ◌%◌, ◌^◌, ◌≤◌, ◌<◌, min}
pub use mathlib.Core.Path.{◌≡◌, refl, sym, ap, ap₂, ◌∙◌, subst}
pub use mathlib.Core.Logic.{◌≢◌, ◌↔◌, ◌⊎◌, inl, inr}
pub use mathlib.Core.Bool.{Bool, true, false, not, ◌&&◌, ◌||◌}
pub use mathlib.Core.Option.{Option, none, some, some-injective}
pub use mathlib.Core.List.{List, [], ◌∷◌, ◌++◌, map, append_assoc, append-nil}
pub use native.Mathlib.Omega.{arith}
pub use native.Mathlib.Nat.{
  mod-add-mod, mod-eq_of_lt, mod-lt, add-mod_right, mod-eq-sub-mod, add-zero, one-le-pow,
  mod-mod_of_dvd, dvd-mul_right, pow-suc, pow-le-pow_right, dvd_of_mod-eq-zero, dvd-sub, le_of_dvd,
}
unfoldable pub use native.Mathlib.Decide.{dec_lt, dec_le, ℕ_discrete}
