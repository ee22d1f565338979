-- ===== src/Base/Trim.antt =====
-- Go's strings.TrimSpace and strings.Cut at one byte, over the bytes of a string.
use Prim.Native.Nat.{ℕ, ◌≤◌}
use mathlib.Core.Path.{◌≡◌, ap, sym, ◌∙◌}
use mathlib.Core.Bool.{Bool, ◌&&◌, ◌||◌}
use mathlib.Core.List.{[], ◌∷◌, ◌++◌, reverse, reverse-append, reverse-reverse, reverse-cons}
use native.Mathlib.Omega.{arith}
use gopheragent.Base.Tests.{leb, ◌==◌, if◌then◌else◌}
use gopheragent.Base.Strings.{Text}

-- The bytes 9 to 13 and 32.
abbrev is_ascii_space : ℕ → Bool
is_ascii_space c = (leb 9 c && leb c 13) || c == 32

-- U+0085, U+00A0 begin with 0xC2.
abbrev is_latin_space : ℕ → ℕ → Bool
is_latin_space a b = a == 0xc2 && (b == 0x85 || b == 0xa0)

-- U+1680, U+2000 to U+200A, U+2028, U+2029, U+202F, U+205F and U+3000 take three bytes.
abbrev is_wide_space : ℕ → ℕ → ℕ → Bool
is_wide_space a b c =
    (a == 0xe1 && b == 0x9a && c == 0x80)
    || (a == 0xe2 && b == 0x80 && (leb 0x80 c && leb c 0x8a || c == 0xa8 || c == 0xa9 || c == 0xaf))
    || (a == 0xe2 && b == 0x81 && c == 0x9f)
    || (a == 0xe3 && b == 0x80 && c == 0x80)

-- Drop the spaces at the front.
pub trim_left : Text → Text
trim_left [] = []
trim_left (a ∷ []) = if is_ascii_space a then [] else a ∷ []
trim_left (a ∷ b ∷ []) =
    if is_ascii_space a then trim_left (b ∷ []) else if is_latin_space a b then [] else a ∷ b ∷ []
trim_left (a ∷ b ∷ c ∷ s) =
    let after_one = trim_left (b ∷ c ∷ s) in
    let after_two = trim_left (c ∷ s) in
    let after_three = trim_left s in
    if is_ascii_space a
    then after_one
    else if is_latin_space a b
    then after_two
    else if is_wide_space a b c
    then after_three
    else a ∷ b ∷ c ∷ s

-- The same from the back, on the reversed string: a space's bytes come last first.
pub trim_back : Text → Text
trim_back [] = []
trim_back (a ∷ []) = if is_ascii_space a then [] else a ∷ []
trim_back (b ∷ a ∷ []) =
    if is_ascii_space b then trim_back (a ∷ []) else if is_latin_space a b then [] else b ∷ a ∷ []
trim_back (c ∷ b ∷ a ∷ s) =
    let after_one = trim_back (b ∷ a ∷ s) in
    let after_two = trim_back (a ∷ s) in
    let after_three = trim_back s in
    if is_ascii_space c
    then after_one
    else if is_latin_space b c
    then after_two
    else if is_wide_space a b c
    then after_three
    else c ∷ b ∷ a ∷ s

unfoldable pub trim_space : Text → Text
unfolding trim_left trim_back
trim_space s = reverse (trim_back (reverse (trim_left s)))

-- A byte of printable ASCII other than the blank.
abbrev pub IsGraphic : ℕ → Type 0
IsGraphic c = (33 ≤ c) × (c ≤ 126)

trim_left_graphic : (c : ℕ) (s : Text) → IsGraphic c → trim_left (c ∷ s) ≡ c ∷ s
unfolding trim_left
trim_left_graphic c [] h = ground arith
trim_left_graphic c (b ∷ []) h = ground arith
trim_left_graphic c (b ∷ d ∷ s) h = ground arith

trim_back_graphic : (c : ℕ) (s : Text) → IsGraphic c → trim_back (c ∷ s) ≡ c ∷ s
unfolding trim_back
trim_back_graphic c [] h = ground arith
trim_back_graphic c (b ∷ []) h = ground arith
trim_back_graphic c (b ∷ d ∷ s) h = ground arith

-- A string whose first and last bytes are graphic is left as it is.
pub trim_space-graphic :
    (c : ℕ) (s : Text) (d : ℕ) (t : Text)
    → c ∷ s ≡ t ++ d ∷ []
    → IsGraphic c
    → IsGraphic d
    → trim_space (c ∷ s) ≡ c ∷ s
unfolding trim_space
trim_space-graphic c s d t e hc hd =
    ap (λ u. reverse (trim_back (reverse u))) (trim_left_graphic c s hc ∙ e)
    ∙ ap (λ u. reverse (trim_back u)) (reverse-append t (d ∷ []))
    ∙ ap reverse (trim_back_graphic d (reverse t) hd)
    ∙ reverse-cons d (reverse t)
    ∙ ap (λ u. u ++ d ∷ []) (reverse-reverse t)
    ∙ sym e
