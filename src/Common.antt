-- ===== src/Common.antt =====
-- Names that the other modules share: the libraries', passed on, and those of the children.
pub mod Tests
pub mod Text
pub mod Lists
pub mod Outcomes
pub mod Int
pub use Tests.*
pub use Lists.*
pub use Outcomes.{Outcome, ok, err, Outcome-cases}
pub use Text.{
  Bytes, codes, bytes_eq_refl, bytes_eq_sound, bytes_eq_iff, labels_eq_refl, labels_eq_sound,
  labels_eq_iff, NoByte, AllNoByte, split-AllNoByte, split-ne-nil, split-join, join-split,
}
unfoldable pub use Text.{bytes_eq, is_empty, labels_eq, split, join}
pub use Prim.Native.Nat.{ℕ, zero, suc, ◌+◌, ◌≤◌, ◌<◌}
pub use mathlib.Core.Path.{◌≡◌, refl, sym, ap, ◌∙◌}
pub use mathlib.Core.Logic.{◌≢◌, ◌↔◌, ◌⊎◌, inl, inr}
pub use mathlib.Core.Bool.{Bool, true, false, not, ◌&&◌, ◌||◌}
pub use mathlib.Core.Option.{Option, none, some}
pub use mathlib.Core.List.{List, [], ◌∷◌, ◌++◌, map}
pub use native.Mathlib.Omega.{arith}
