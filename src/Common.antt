-- ===== src/Common.antt =====
-- The names that every module shares: the libraries', passed on, Boolean tests on numbers, texts
-- and integers, the conditional, and lists over the native numbers.
mod Tests
mod Lists
mod Text
pub mod Maps
pub mod Int
pub use Int.{ℤ}
pub use Tests.*
pub use Lists.*
pub use Text.{◌⧺◌}
unfoldable pub use Text.{decimal}
pub use Prim.Native.Nat.{ℕ, zero, suc, ◌+◌, ◌-◌, ◌*◌, ◌/◌, ◌%◌, ◌^◌, ◌≤◌, ◌<◌}
pub use Prim.Native.String.{String}
pub use text.Mathlib.TextEquality.{eq_iff}
pub use text.Mathlib.TextPositions.{eq_refl}
pub use mathlib.Core.Path.{◌≡◌, refl, sym, ap, ◌∙◌}
pub use mathlib.Core.Logic.{◌≢◌, ◌↔◌, ◌⊎◌, inl, inr}
pub use mathlib.Core.Bool.{Bool, true, false, not, ◌&&◌, ◌||◌}
pub use mathlib.Core.Option.{Option, none, some}
pub use mathlib.Core.List.{List, [], ◌∷◌, ◌++◌, map}
pub use native.Mathlib.Omega.{arith}
