-- ===== src/Base/Decimal.antt =====
-- The decimal digits that fmt's %d prints of a number that is not negative.
use Prim.Native.Nat.{ℕ, zero, suc, ◌+◌, ◌/◌, ◌%◌}
use mathlib.Core.List.{[], ◌∷◌, ◌++◌}
use gopheragent.Base.Tests.{ltb, if◌then◌else◌}
use gopheragent.Base.Strings.{Text}

-- A number has no more digits than its value, and one more round is enough for 0.
digits : ℕ → ℕ → Text
digits zero n = []
digits (suc f) n =
    let front = digits f (n / 10) in
    if ltb n 10 then (b'0' + n) ∷ [] else front ++ (b'0' + n % 10) ∷ []

unfoldable pub decimal : ℕ → Text
unfolding digits
decimal n = digits (suc n) n
