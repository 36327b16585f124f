-- ===== src/Prelude.antt =====
-- The names that the other modules share: the libraries', passed on, and those of the children:
-- `Tests` (Boolean tests), `Lists` (lists measured and indexed by native numbers), `Arrays` (blocks
-- copied into and read out of byte arrays), `Words` (wrap-around of machine words), `Bits` (masks),
-- `Predicates` (predicates on all members of a list) and `Tables` (facts by evaluation of a range).
mod Tests
mod Lists
mod Arrays
mod Words
pub mod Bits
pub mod Digits
pub mod Align
pub mod Members
pub mod Predicates
pub mod Tables
pub use Tests.*
pub use Lists.*
unfoldable pub use Arrays.*
pub use Words.*
pub use Prim.Native.Nat.{ℕ, zero, suc, ◌+◌, ◌-◌, ◌*◌, ◌/◌, ◌%◌, ◌^◌, ◌≤◌, ◌<◌, min}
pub use mathlib.Core.Path.{◌≡◌, refl, sym, ap, ap₂, ◌∙◌}
pub use mathlib.Core.Logic.{◌≢◌, ◌↔◌, ◌⊎◌, inl, inr}
pub use mathlib.Core.Bool.{Bool, true, false, not, ◌&&◌, ◌||◌}
pub use mathlib.Core.Option.{Option, none, some}
pub use mathlib.Core.List.{List, [], ◌∷◌, ◌++◌, map, append-nil, append_assoc}
pub use native.Mathlib.Omega.{arith}
unfoldable pub use native.Mathlib.Decide.{dec_lt, ℕ_discrete}
