-- ===== src/Permission/Glob/Language.antt =====
-- What a glob means, with no search order in it: `*` stands for any run of bytes, `?` for any one
-- byte, and every other byte for itself.
use gopheragent.Base.{
  ℕ, ◌≡◌, ◌≢◌, ◌⊎◌, inl, inr, true, false, ◌||◌, ◌==◌, [], ◌∷◌, Text, arith, Bool-cases,
}
use gopheragent.Permission.Glob.{star, question}

-- A pattern byte other than a star accepts `c`.
abbrev pub Accepts : ℕ → ℕ → Type 0
Accepts x c = (x ≢ star) × ((x ≡ c) ⊎ (x ≡ question))

pub data Matches : Text → Text → Type 0 where
  finish : Matches [] []
  one : {x c : ℕ} {p s : Text} → Accepts x c → Matches p s → Matches (x ∷ p) (c ∷ s)
  leave : {x : ℕ} {p s : Text} → x ≡ star → Matches p s → Matches (x ∷ p) s
  extend : {x c : ℕ} {p s : Text} → x ≡ star → Matches (x ∷ p) s → Matches (x ∷ p) (c ∷ s)

pub not-Matches-nil : {c : ℕ} {s : Text} → ¬ Matches [] (c ∷ s)
not-Matches-nil m = elim m [ ]

-- A byte that is no star is used up at once.
pub one_inv :
    {x c : ℕ} {p s : Text} → x ≢ star → Matches (x ∷ p) (c ∷ s) → Accepts x c × Matches p s
one_inv n (one a m) = (a, m)
one_inv n (leave e m) = absurd (n e)
one_inv n (extend e m) = absurd (n e)

pub star_inv :
    {x c : ℕ} {p s : Text}
    → x ≡ star
    → Matches (x ∷ p) (c ∷ s)
    → Matches p (c ∷ s) ⊎ Matches (x ∷ p) s
star_inv e (one a m) = absurd (a.0 e)
star_inv e (leave _ m) = inl m
star_inv e (extend _ m) = inr m

pub star_end : {x : ℕ} {p : Text} → x ≡ star → Matches (x ∷ p) [] → Matches p []
star_end e (leave _ m) = m

-- Two stars in a row say no more than one.
pub star-star :
    {x y : ℕ} {p s : Text} → x ≡ star → y ≡ star → Matches (x ∷ y ∷ p) s → Matches (y ∷ p) s
star-star e d (one a m) = absurd (a.0 e)
star-star e d (leave _ m) = m
star-star e d (extend _ m) = extend d (star-star e d m)

pub no_room : {y : ℕ} {p : Text} → y ≢ star → Matches (y ∷ p) [] → ⊥
no_room n (leave d m) = n d

-- After a star, a byte that is no star can wait: whatever it uses up, the rest still matches with
-- the star in front.
pub star_one :
    {x y c : ℕ} {p : Text} (s : Text)
    → x ≡ star
    → y ≢ star
    → Matches (x ∷ y ∷ p) (c ∷ s)
    → Matches (x ∷ p) s
star_one s e n (one a m) = absurd (a.0 e)
star_one s e n (leave _ m) = leave e (one_inv n m).1
star_one [] e n (extend _ m) = absurd (no_room n (star_end e m))
star_one (c ∷ s) e n (extend _ m) = extend e (star_one s e n m)

-- The three branches of a round on the pattern byte `x` and the text byte `c`, each with what its
-- tests say.
pub round_cases :
    (x c : ℕ)
    → ((x == c || x == question) ≡ true)
      ⊎ (((x == c || x == question) ≡ false) × ((x == star) ≡ true))
      ⊎ (((x == c || x == question) ≡ false) × ((x == star) ≡ false))
round_cases x c = ground arith

-- The first branch is right also where it reads a star as a plain byte.
pub Matches-first :
    {x c : ℕ} {p s : Text}
    → (x == c || x == question) ≡ true
    → Matches p s
    → Matches (x ∷ p) (c ∷ s)
Matches-first {x} {c} h m = elim (Bool-cases (x == star)) [
  | inl e ↦ extend (ground arith) (leave (ground arith) m)
  | inr n ↦ one (ground arith, ground arith) m
]
