-- ===== src/Base/Runes.antt =====
-- UTF-8 as Go's range over a string and utf8.RuneCountInString read it: a rune takes one to four
-- bytes, and a byte that begins no valid rune is a rune of its own.
use Prim.Native.Nat.{ℕ, zero, suc, ◌-◌}
use mathlib.Core.Path.{◌≡◌, refl, ap}
use mathlib.Core.Bool.{Bool, ◌&&◌}
use mathlib.Core.List.{[], ◌∷◌, ◌++◌}
use gopheragent.Base.Tests.{leb, ◌==◌, if◌then◌else◌}
use gopheragent.Base.Strings.{Text}

abbrev between : ℕ → ℕ → ℕ → Bool
between lo hi b = leb lo b && leb b hi

-- A continuation byte.
abbrev follows : ℕ → Bool
follows b = between 0x80 0xbf b

-- The second byte of a rune of three bytes, and of four, by the first.
abbrev follows_of_three : ℕ → ℕ → Bool
follows_of_three a b =
    if a == 0xe0 then between 0xa0 0xbf b else if a == 0xed then between 0x80 0x9f b else follows b

abbrev follows_of_four : ℕ → ℕ → Bool
follows_of_four a b =
    if a == 0xf0 then between 0x90 0xbf b else if a == 0xf4 then between 0x80 0x8f b else follows b

-- The bytes of the first rune behind its first byte.
pub extra : Text → ℕ
extra [] = 0
extra (a ∷ []) = 0
extra (a ∷ b ∷ []) = if between 0xc2 0xdf a && follows b then 1 else 0
extra (a ∷ b ∷ c ∷ []) =
    if between 0xc2 0xdf a && follows b
    then 1
    else if between 0xe0 0xef a && (follows_of_three a b && follows c)
    then 2
    else 0
extra (a ∷ b ∷ c ∷ d ∷ s) =
    if between 0xc2 0xdf a && follows b
    then 1
    else if between 0xe0 0xef a && (follows_of_three a b && follows c)
    then 2
    else if between 0xf0 0xf4 a && (follows_of_four a b && (follows c && follows d))
    then 3
    else 0

-- `k` bytes still belong to the rune that has begun.
count_from : ℕ → Text → ℕ
count_from k [] = 0
count_from (suc k) (a ∷ s) = count_from k s
count_from zero (a ∷ s) = suc (count_from (extra (a ∷ s)) s)

unfoldable pub rune_count : Text → ℕ
unfolding count_from extra
rune_count = count_from zero

-- The first `n` runes, with `k` bytes left of the rune that has begun.
take_from : ℕ → ℕ → Text → Text
take_from n k [] = []
take_from n (suc k) (a ∷ s) = a ∷ take_from n k s
take_from zero zero (a ∷ s) = []
take_from (suc n) zero (a ∷ s) = a ∷ take_from n (extra (a ∷ s)) s

drop_from : ℕ → ℕ → Text → Text
drop_from n k [] = []
drop_from n (suc k) (a ∷ s) = drop_from n k s
drop_from zero zero (a ∷ s) = a ∷ s
drop_from (suc n) zero (a ∷ s) = drop_from n (extra (a ∷ s)) s

-- The runes of a string from `start` up to `end`.
unfoldable pub rune_slice : Text → ℕ → ℕ → Text
unfolding take_from drop_from extra
rune_slice s start end =
    if leb end start then [] else take_from (end - start) zero (drop_from start zero s)

-- Cutting loses nothing: the first runes and the others make up the string.
cut_at_rune : (n k : ℕ) (s : Text) → take_from n k s ++ drop_from n k s ≡ s
unfolding take_from drop_from
cut_at_rune n k [] = refl
cut_at_rune n (suc k) (a ∷ s) = ap (◌∷◌ a) (cut_at_rune n k s)
cut_at_rune zero zero (a ∷ s) = refl
cut_at_rune (suc n) zero (a ∷ s) = ap (◌∷◌ a) (cut_at_rune n (extra (a ∷ s)) s)
