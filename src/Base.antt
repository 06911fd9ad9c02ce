-- ===== src/Base.antt =====
-- The names that every module of the development shares: those of the libraries, passed on, and the
-- tests, lists, integers and texts of the children.
mod Tests
mod Lists
mod Int
mod Codes
mod Strip
mod Slices
mod Quantified
pub use Tests.*
pub use Lists.*
pub use Int.*
unfoldable pub use Int.{◌+ℤ◌, ◌-ℤ◌}
pub use Codes.*
pub use Strip.*
pub use Slices.*
pub use Quantified.*
unfoldable pub use Strip.{is_space, strip_start, strip_end, strip, is_blank}
pub use Prim.Native.Nat.{ℕ, zero, suc, ◌+◌, ◌-◌, ◌*◌, ◌/◌, ◌%◌, ◌^◌, ◌≤◌, ◌<◌}
pub use mathlib.Core.Path.{◌≡◌, refl, sym, ap, ◌∙◌, subst}
pub use mathlib.Core.Logic.{◌≢◌, ◌↔◌, ◌⊎◌, inl, inr}
pub use mathlib.Core.Bool.{Bool, true, false, not, ◌&&◌, ◌||◌}
pub use mathlib.Core.Option.{Option, none, some}
pub use mathlib.Core.List.{List, [], ◌∷◌, ◌++◌, map}
pub use native.Mathlib.Omega.{arith}
