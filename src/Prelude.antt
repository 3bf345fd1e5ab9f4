-- ===== src/Prelude.antt =====
-- The names that the modules share: the libraries', passed on, and those of the children.
mod Tests
mod Text
mod Search
mod Int
mod Decimal
mod Fallible
mod Occurrence
mod Maps
mod MapLaws
unfoldable pub use Tests.*
unfoldable pub use Text.*
unfoldable pub use Search.*
unfoldable pub use Int.*
unfoldable pub use Decimal.*
unfoldable pub use Fallible.*
unfoldable pub use Maps.*
pub use MapLaws.*
pub use Occurrence.*
pub use Prim.Native.Nat.{ℕ, zero, suc, ◌+◌, ◌-◌, ◌*◌, ◌/◌, ◌%◌, ◌^◌, ◌≤◌, ◌<◌}
pub use mathlib.Core.Path.{◌≡◌, refl, sym, ap, ◌∙◌, subst}
pub use mathlib.Core.Logic.{◌≢◌, ◌↔◌, ◌⊎◌, inl, inr}
pub use mathlib.Core.Bool.{Bool, true, false, not, ◌&&◌, ◌||◌}
pub use mathlib.Core.Option.{Option, none, some}
pub use mathlib.Core.List.{List, [], ◌∷◌, ◌++◌, map, append-nil, append_assoc}
pub use native.Mathlib.Omega.{arith}
