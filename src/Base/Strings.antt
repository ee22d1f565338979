-- ===== src/Base/Strings.antt =====
-- Go strings: immutable byte sequences, compared byte by byte.
use Prim.Native.Nat.{ℕ}
use Prim.Native.Char.{code}
use Prim.Native.String.{String}
use mathlib.Core.Path.{◌≡◌}
use mathlib.Core.Logic.{◌↔◌, ◌≢◌}
use mathlib.Core.Bool.{Bool, true, false}
use mathlib.Core.List.{List, [], ◌∷◌}
use native.Mathlib.Omega.{arith}
use native.Mathlib.Decide.{ℕ_discrete}

abbrev pub Text : Type 0
Text = List ℕ

-- The bytes of an ASCII literal.
abbrev pub codes : String → Text
codes String.[] = []
codes (String.◌∷◌ c s) = code c ∷ codes s

unfoldable pub text_discrete : Discrete Text
unfolding ℕ_discrete
text_discrete = hlevel ℕ_discrete

-- `a == b` on strings.
abbrev pub same : Text → Text → Bool
same a b = elim (text_discrete a b) [ yes _ ↦ true | no _ ↦ false ]

pub same_iff : (a b : Text) → (same a b ≡ true) ↔ (a ≡ b)
same_iff a b = ground arith

pub same_refl : (a : Text) → same a a ≡ true
same_refl a = ground arith

pub same_ne : (a b : Text) → a ≢ b → same a b ≡ false
same_ne a b h = ground arith
