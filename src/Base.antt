-- ===== src/Base.antt =====
-- Names shared by the other modules: the libraries' names passed on, the Boolean tests on numbers,
-- the list operations that count by native numbers, and text as a list of code points.
mod Tests
mod Lists
mod Keys
pub mod Int
pub mod Text
pub use Tests.*
pub use Lists.*
pub use Keys.*
pub use Prim.Native.Nat.{ℕ, zero, suc, ◌+◌, ◌-◌, ◌*◌, ◌/◌, ◌%◌, ◌≤◌, ◌<◌, min, max}
pub use mathlib.Core.Path.{◌≡◌, refl, sym, ap, ◌∙◌}
pub use mathlib.Core.Logic.{◌≢◌, ◌↔◌, ◌⊎◌, inl, inr}
pub use mathlib.Core.Bool.{Bool, true, false, not, ◌&&◌, ◌||◌}
pub use mathlib.Core.Option.{Option, none, some}
pub use mathlib.Core.List.{List, [], ◌∷◌, ◌++◌, map}
pub use native.Mathlib.Omega.{arith}
