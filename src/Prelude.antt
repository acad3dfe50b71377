-- ===== src/Prelude.antt =====
-- The names that the components share: those of the libraries, passed on, and the tests, lists,
-- texts and dictionaries of the children.
mod Tests
mod Lists
mod Texts
mod Strips
mod Dicts
mod Places
pub use Tests.*
unfoldable pub use Lists.*
unfoldable pub use Texts.*
pub use Strips.*
pub use Places.*
unfoldable pub use Dicts.*
pub use Prim.Native.Nat.{ℕ, zero, suc, ◌+◌, ◌-◌, ◌*◌, ◌/◌, ◌%◌, ◌^◌, ◌≤◌, ◌<◌, min, max}
pub use Prim.Native.String.{String}
pub use mathlib.Core.Path.{◌≡◌, refl, sym, ap, ◌∙◌, subst}
pub use mathlib.Core.Logic.{◌≢◌, ◌↔◌, ◌⊎◌, inl, inr}
pub use mathlib.Core.Bool.{Bool, true, false, not, ◌&&◌, ◌||◌}
pub use mathlib.Core.Option.{Option, none, some}
pub use mathlib.Core.List.{List, [], ◌∷◌, ◌++◌, map}
pub use native.Mathlib.Omega.{arith}
