-- ===== src/Base/Contains.antt =====
-- Go's strings.HasPrefix, strings.Contains and string order on byte sequences.
use mathlib.Core.Bool.{Bool, true, false, ◌&&◌, ◌||◌}
use mathlib.Core.List.{[], ◌∷◌}
use gopheragent.Base.Tests.{◌==◌, ltb}
use gopheragent.Base.Strings.{Text}

abbrev pub has_prefix : Text → Text → Bool
has_prefix s [] = true
has_prefix [] (p ∷ ps) = false
has_prefix (c ∷ s) (p ∷ ps) = (c == p) && has_prefix s ps

abbrev pub contains : Text → Text → Bool
contains [] sub = has_prefix [] sub
contains (c ∷ s) sub = has_prefix (c ∷ s) sub || contains s sub

-- `a < b` on strings.
abbrev pub text_before : Text → Text → Bool
text_before s [] = false
text_before [] (d ∷ t) = true
text_before (c ∷ s) (d ∷ t) = ltb c d || ((c == d) && text_before s t)
