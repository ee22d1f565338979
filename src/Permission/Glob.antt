-- ===== src/Permission/Glob.antt =====
-- pkg/agent/permissions.go, globMatch: the two-pointer glob matcher.
-- A position in a string is the suffix that starts there. The saved star is the pattern after the
-- star (`starPi + 1`) and the text where the star was met (`starSi`), if there is one.
use gopheragent.Base.{
  ℕ, zero, suc, ◌+◌, ◌*◌, Bool, true, false, ◌||◌, List, [], ◌∷◌, Option, none, some, ◌==◌,
  if◌then◌else◌, length, drop, Text,
}
use mathlib.Core.Option.{get_or}
pub mod Language
pub mod Sound
pub mod Complete
pub mod Total
pub mod Gap

abbrev pub star : ℕ
star = b'*'

abbrev pub question : ℕ
question = b'?'

abbrev pub Saved : Type 0
Saved = Option (Text × Text)

abbrev pub Round : Type 0
Round = Text → Text → Saved → Option Bool

-- The last two cases of the `switch`: let the saved star take one more byte, or give up.
pub retry : Saved → Round → Option Bool
retry none next = some false
retry (some (p, s)) next = next p (drop 1 s) (some (p, drop 1 s))

-- The loop after the text is used up: only stars may be left.
pub only_stars : Text → Bool
only_stars [] = true
only_stars (x ∷ p) = if x == star then only_stars p else false

-- `none` means that the fuel ran out.
pub glob_loop : ℕ → Round
glob_loop zero p s saved = none
glob_loop (suc f) p [] saved = some (only_stars p)
glob_loop (suc f) [] (c ∷ s) saved = retry saved (glob_loop f)
glob_loop (suc f) (x ∷ p) (c ∷ s) saved =
    let onward = glob_loop f p s saved in
    let starred = glob_loop f p (c ∷ s) (some (p, c ∷ s)) in
    let again = retry saved (glob_loop f) in
    if x == c || x == question then onward else if x == star then starred else again

-- Enough rounds for every pattern and text.
pub rounds : Text → Text → ℕ
rounds p s = length s * (length p + 1) + length p + 1

unfoldable pub glob_match : Text → Text → Bool
unfolding glob_loop retry only_stars rounds
glob_match p s = get_or (glob_loop (rounds p s) p s none) false
