-- ===== src/Common.antt =====
-- Names that every module shares: the library's numbers, lists and logic, the Boolean tests, the
-- exceptions and results of the Python code, and the reading and writing of database tables.
mod Tests
mod Lists
mod Results
mod Times
mod Tables
mod Sorting
mod Distinct
mod Texts
mod Words
mod Ints
pub mod Actions
pub use Tests.*
pub use Lists.*
pub use Results.*
unfoldable pub use Times.*
unfoldable pub use Tables.*
pub use Sorting.*
pub use Distinct.*
unfoldable pub use Texts.*
unfoldable pub use Words.*
pub use Ints.*
pub use Prim.Native.Nat.{ℕ, zero, suc, ◌+◌, ◌-◌, ◌*◌, ◌/◌, ◌%◌, ◌^◌, ◌≤◌, ◌<◌, min, max}
pub use Prim.Native.String.{String}
pub use mathlib.Core.Path.{◌≡◌, refl, sym, ap, subst, ◌∙◌}
pub use mathlib.Core.Logic.{◌≢◌, ◌↔◌, ◌⊎◌, inl, inr}
pub use mathlib.Core.Bool.{Bool, true, false, not, ◌&&◌, ◌||◌}
pub use mathlib.Core.Option.{Option, none, some}
pub use mathlib.Core.List.{List, [], ◌∷◌, ◌++◌, map}
pub use native.Mathlib.Omega.{arith}
pub use text.Mathlib.Text.{◌==◌ as str_eq}
pub use text.Mathlib.TextEquality.{eq_iff}
