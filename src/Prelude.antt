-- ===== src/Prelude.antt =====
-- The names that the other modules share: the libraries', passed on, and those of the children:
-- tests on numbers (Tests), lists over the native numbers (Lists), Python's text functions
-- (Text), integers and reals (Int, Real), keyed tables (Table), results with exceptions (Result) and stateful actions (Action).
pub mod Tests
pub mod Lists
pub mod Int
pub mod Real
pub mod Text
pub mod Table
pub mod Result
pub mod Action
pub mod Keeps
pub mod Clean
pub use Tests.*
pub use Lists.*
pub use Int.*
pub use Real.*
pub use Text.{str_eq, eq_iff, eq_refl, String, is_empty}
pub use Prim.Native.Nat.{ℕ, zero, suc, ◌+◌, ◌-◌, ◌*◌, ◌/◌, ◌%◌, ◌^◌, ◌≤◌, ◌<◌, min, max}
pub use mathlib.Core.Path.{◌≡◌, refl, sym, ap, ◌∙◌}
pub use mathlib.Core.Logic.{◌≢◌, ◌↔◌, ◌⊎◌, inl, inr}
pub use mathlib.Core.Bool.{Bool, true, false, not, ◌&&◌, ◌||◌}
pub use mathlib.Core.Option.{Option, none, some}
pub use mathlib.Core.List.{List, [], ◌∷◌, ◌++◌, map}
pub use native.Mathlib.Omega.{arith}
