-- ===== src/Prelude.antt =====
-- The names that all modules share: the library's, passed on, and those of the children: Boolean
-- tests, lists measured by native numbers, and texts as lists of code points.
mod Tests
mod Lists
pub mod Text
pub mod Exec
pub mod Act
pub mod Split
pub mod Decimal
pub mod Int
pub mod Paths
pub mod Sorting
pub mod Components
pub mod Utf8
pub use Tests.*
pub use Lists.*
pub use Prim.Native.Nat.{ℕ, zero, suc, ◌+◌, ◌-◌, ◌*◌, ◌/◌, ◌%◌, ◌^◌, ◌≤◌, ◌<◌}
pub use Prim.Native.String.{String}
pub use mathlib.Core.Path.{◌≡◌, refl, sym, ap, ap₂, subst, ◌∙◌}
pub use mathlib.Core.Logic.{◌≢◌, ◌↔◌, ◌⊎◌, inl, inr}
pub use mathlib.Core.Bool.{Bool, true, false, not, ◌&&◌, ◌||◌}
pub use mathlib.Core.Option.{Option, none, some}
pub use mathlib.Core.List.{List, [], ◌∷◌, ◌++◌, map, append_assoc, append-nil}
pub use native.Mathlib.Omega.{arith}
