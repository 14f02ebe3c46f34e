-- ===== src/Prelude.antt =====
-- The names that the other modules share: the libraries' passed on, Boolean tests, lists and bytes
-- over the native numbers, and Go's error results.
mod Tests
mod Lists
mod Folds
mod Bytes
mod Results
pub use Tests.*
pub use Lists.*
pub use Folds.*
pub use Bytes.*
pub use Results.*
unfoldable pub use Bytes.{put_u16, put_u32, put_u64, from_be, get_be}
pub use Prim.Native.Nat.{ℕ, zero, suc, ◌+◌, ◌-◌, ◌*◌, ◌/◌, ◌%◌, ◌^◌, ◌≤◌, ◌<◌, min, max, bit_and}
pub use mathlib.Core.Path.{◌≡◌, refl, sym, ap, ap₂, ◌∙◌, subst}
pub use mathlib.Core.Logic.{◌≢◌, ◌↔◌, ◌⊎◌, inl, inr}
pub use mathlib.Core.Bool.{Bool, true, false, not, ◌&&◌, ◌||◌}
pub use mathlib.Core.Option.{Option, none, some}
pub use mathlib.Core.List.{List, [], ◌∷◌, ◌++◌, map, append-nil, append_assoc}
pub use native.Mathlib.Omega.{arith}
