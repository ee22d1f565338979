-- ===== src/Base.antt =====
-- The names that the other modules share: numbers, paths, lists and options of the libraries,
-- Boolean tests, lists measured by native numbers, and Go strings as byte sequences.
mod Tests
mod Lists
mod Strings
mod Results
mod Trim
mod Tables
mod Decimal
mod Runes
mod Contains
pub use Contains.*
pub use Tests.*
pub use Results.*
unfoldable pub use Trim.{trim_space}
pub use Trim.{IsGraphic, trim_space-graphic}
pub use Lists.*
unfoldable pub use Runes.{rune_count, rune_slice}
unfoldable pub use Decimal.{decimal}
pub use Tables.*
unfoldable pub use Strings.{text_discrete}
pub use Strings.{Text, codes, same, same_iff, same_refl, same_ne}
pub use Prim.Native.Nat.{
  ℕ, zero, suc, ◌+◌, ◌-◌, ◌*◌, ◌/◌, ◌%◌, ◌^◌, ◌≤◌, ◌<◌, compare, Ordering, min, max,
}
pub use Prim.Native.String.{String}
pub use mathlib.Core.Path.{◌≡◌, refl, sym, ap, ◌∙◌, subst}
pub use mathlib.Core.Logic.{◌≢◌, ◌↔◌, ◌⊎◌, inl, inr, ite, if_pos, if_neg}
pub use mathlib.Core.Bool.{Bool, true, false, not, ◌&&◌, ◌||◌}
pub use mathlib.Core.Option.{Option, none, some}
pub use mathlib.Core.List.{List, [], ◌∷◌, ◌++◌, map}
pub use mathlib.Core.List.{append-nil, append_assoc}
pub use native.Mathlib.Omega.{arith}
unfoldable pub use native.Mathlib.Decide.{dec_lt, dec_le, ℕ_discrete}
