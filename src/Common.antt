-- ===== src/Common.antt =====
-- The names that the modules share: the libraries', passed on, and those of its children.
-- A Go string or []byte is a list of bytes, each a number below 256.
mod Tests
mod Lists
mod Int
mod Maps
mod Split
mod Sort
mod Pigeonhole
unfoldable pub use Tests.*
pub use Lists.*
pub use Int.*
unfoldable pub use Maps.*
unfoldable pub use Split.*
unfoldable pub use Sort.*
pub use Pigeonhole.*
pub use Prim.Native.Nat.{ℕ, zero, suc, ◌+◌, ◌-◌, ◌*◌, ◌/◌, ◌%◌, ◌^◌, ◌≤◌, ◌<◌}
pub use mathlib.Core.Path.{◌≡◌, refl, sym, ap, ◌∙◌, subst}
pub use mathlib.Core.Logic.{◌≢◌, ◌↔◌, ◌⊎◌, inl, inr}
pub use mathlib.Core.Bool.{Bool, true, false, not, ◌&&◌, ◌||◌}
pub use mathlib.Core.Option.{Option, none, some}
pub use mathlib.Core.List.{List, [], ◌∷◌, ◌++◌, map, append_assoc, append-nil, map-append}
pub use native.Mathlib.Omega.{arith}
