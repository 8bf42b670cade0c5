-- ===== src/Prelude.antt =====
-- Names that the other modules share: the libraries', and those of the children.
mod Tests
mod Text
mod Sets
mod Sort
mod Emptiness
mod Format
mod Unique
mod Dicts
mod Items
mod Indexed
unfoldable pub use Tests.*
unfoldable pub use Text.*
unfoldable pub use Sets.*
unfoldable pub use Sort.*
unfoldable pub use Emptiness.*
unfoldable pub use Format.*
unfoldable pub use Unique.*
unfoldable pub use Dicts.*
unfoldable pub use Items.*
unfoldable pub use Indexed.*
pub use Prim.Native.Nat.{ℕ, zero, suc, ◌+◌, ◌-◌, ◌*◌, ◌/◌, ◌%◌, ◌^◌, ◌≤◌, ◌<◌}
pub use Prim.Native.String.{String}
pub use mathlib.Core.Path.{◌≡◌, refl, sym, ap, ap₂, ◌∙◌, subst}
pub use mathlib.Core.Logic.{◌≢◌, ◌↔◌, ◌⊎◌, inl, inr}
pub use mathlib.Core.Bool.{Bool, true, false, not, ◌&&◌, ◌||◌}
pub use mathlib.Core.Option.{Option, none, some}
pub use mathlib.Core.List.{List, [], ◌∷◌, ◌++◌, map}
pub use native.Mathlib.Omega.{arith}
