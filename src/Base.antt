-- ===== src/Base.antt =====
-- The names that the other modules share: the libraries' that they use, and those of the children.
mod Tests
mod Lists
mod Int
mod Text
mod Maps
mod Order
mod Sort
mod Totals
pub mod Run
pub use Tests.*
pub use Lists.*
pub use Int.*
unfoldable pub use Text.*
pub use Text.Trim.*
pub use Order.*
pub use Totals.*
unfoldable pub use Maps.*
unfoldable pub use Sort.*
pub use Prim.Native.Nat.{ℕ, zero, suc, ◌+◌, ◌-◌, ◌*◌, ◌/◌, ◌%◌, ◌^◌, ◌≤◌, ◌<◌}
pub use Prim.Native.String.{String}
pub use mathlib.Core.Path.{◌≡◌, refl, sym, ap, ◌∙◌, subst}
pub use mathlib.Core.Logic.{◌≢◌, ◌↔◌, ◌⊎◌, inl, inr}
pub use mathlib.Core.Bool.{Bool, true, false, not, ◌&&◌, ◌||◌}
pub use mathlib.Core.Option.{Option, none, some}
pub use mathlib.Core.List.{List, [], ◌∷◌, ◌++◌, map, reverse}
pub use native.Mathlib.Omega.{arith}
