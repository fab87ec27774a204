-- ===== src/Prelude.antt =====
-- The names that every module shares: those of the libraries, passed on, and the helpers of the
-- child modules (tests on numbers, lists with native indices, signed integers, bit masks).
mod Tests
mod Lists
mod Ints
mod Texts
mod Words
pub mod Options
pub mod Bits
pub mod Strings
pub mod Decimals
pub mod Runs
pub use Tests.*
pub use Lists.*
unfoldable pub use Ints.*
pub use Texts.*
pub use Words.*
pub use Prim.Native.Nat.{ℕ, zero, suc, ◌+◌, ◌-◌, ◌*◌, ◌/◌, ◌%◌, ◌^◌, ◌≤◌, ◌<◌, min, max}
pub use mathlib.Core.Path.{◌≡◌, refl, sym, ap, ap₂, subst, ◌∙◌}
pub use mathlib.Core.Logic.{◌≢◌, ◌↔◌, ◌⊎◌, inl, inr}
pub use mathlib.Core.Bool.{Bool, true, false, not, ◌&&◌, ◌||◌}
pub use mathlib.Core.Option.{Option, none, some}
pub use mathlib.Core.List.{List, [], ◌∷◌, ◌++◌, map, append_assoc, append-nil}
pub use native.Mathlib.Omega.{arith}
unfoldable pub use native.Mathlib.Decide.{dec_lt, dec_le, ℕ_discrete}
