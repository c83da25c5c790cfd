-- ===== src/Prelude.antt =====
-- What every other module shares: the libraries' names, passed on, the Boolean tests, lists over
-- the native numbers, texts, insertion-ordered dictionaries and JSON values.
mod Tests
mod Lists
pub mod Equality
pub mod Int
pub mod Dict
pub mod Text
pub mod Json
pub mod Sorting
pub use Tests.*
pub use Lists.*
pub use Equality.*
unfoldable pub use Sorting.{text_leb, sort_by}
pub use Sorting.{Sorted}
pub use Prim.Native.Nat.{ℕ, zero, suc, ◌+◌, ◌-◌, ◌*◌, ◌/◌, ◌%◌, ◌≤◌, ◌<◌, min, max}
pub use Prim.Native.String.{String}
pub use mathlib.Core.Path.{◌≡◌, refl, sym, ap, ◌∙◌, subst}
pub use mathlib.Core.Logic.{◌≢◌, ◌↔◌, ◌⊎◌, inl, inr}
pub use mathlib.Core.Bool.{Bool, true, false, not, ◌&&◌, ◌||◌}
pub use mathlib.Core.Option.{Option, none, some}
pub use mathlib.Core.List.{List, [], ◌∷◌, ◌++◌, map}
pub use native.Mathlib.Omega.{arith}
