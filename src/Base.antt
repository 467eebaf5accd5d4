-- ===== src/Base.antt =====
-- The names that the modules share: the libraries' and those of the children below.
mod Tests
mod Equality
mod Lists
mod Maps
mod Text
mod TextLaws
mod Results
mod Decimal
mod Sorted
mod Within
unfoldable pub use Tests.*
unfoldable pub use Equality.*
unfoldable pub use Lists.*
unfoldable pub use Maps.*
unfoldable pub use Text.*
pub use TextLaws.*
unfoldable pub use Results.*
unfoldable pub use Decimal.*
unfoldable pub use Sorted.*
unfoldable pub use Within.*
pub use Prim.Native.Nat.{ℕ, zero, suc, ◌+◌, ◌-◌, ◌*◌, ◌/◌, ◌%◌, ◌^◌, ◌≤◌, ◌<◌}
pub use Prim.Native.String.{String}
pub use mathlib.Core.Path.{◌≡◌, refl, sym, ap, ◌∙◌, subst}
pub use mathlib.Core.Logic.{◌≢◌, ◌↔◌, ◌⊎◌, inl, inr}
pub use mathlib.Core.Bool.{Bool, true, false, not, ◌&&◌, ◌||◌}
pub use mathlib.Core.Option.{Option, none, some}
pub use mathlib.Core.List.{List, [], ◌∷◌, ◌++◌, map, append-nil, append_assoc}
pub use native.Mathlib.Omega.{arith}
