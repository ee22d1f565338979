-- ===== src/Session/Regenerate/Last.antt =====
-- The search for the last message of a role, from the end.
use gopheragent.Base.{
  ℕ, zero, suc, ◌≡◌, ◌<◌, inl, inr, refl, sym, ap, ◌∙◌, Bool, true, false, List, Option, none, some,
  Bool-cases, Text, get_elem?, arith, dec_lt, subst, if◌then◌else◌,
}
use mathlib.Core.Bool.{true≢false}
use gopheragent.History.{Message, has_role}
use gopheragent.Session.Regenerate.{last_index}

-- Whether a message of the role stands at `i`.
abbrev pub role_at : Text → List Message → ℕ → Bool
role_at role ms i = elim (get_elem? ms i) [ none ↦ false | some m ↦ has_role role m ]

-- `i` holds the last message of the role before `n`.
abbrev pub LastAt : Text → List Message → ℕ → ℕ → Type 0
LastAt role ms n i =
    (role_at role ms i ≡ true) × ((i < n) × ((p : ℕ) → i < p → p < n → role_at role ms p ≡ false))

abbrev pub Missing : Text → List Message → ℕ → Type 0
Missing role ms n = (p : ℕ) → p < n → role_at role ms p ≡ false

abbrev pub Found : Text → List Message → ℕ → Option ℕ → Type 0
Found role ms n none = Missing role ms n
Found role ms n (some i) = LastAt role ms n i

last_index-here :
    (role : Text) (ms : List Message) (n : ℕ)
    → role_at role ms n ≡ true
    → last_index role ms (suc n) ≡ some n
unfolding last_index
last_index-here role ms n = by_message (get_elem? ms n)
  where
    by_message :
        (o : Option Message)
        → elim o [ none ↦ false | some m ↦ has_role role m ] ≡ true
        → elim o [
          | none ↦ last_index role ms n
          | some m ↦ if has_role role m then some n else last_index role ms n
        ]
          ≡ some n
    by_message none h = absurd (true≢false (sym h))
    by_message (some m) h = rw h refl

last_index-earlier :
    (role : Text) (ms : List Message) (n : ℕ)
    → role_at role ms n ≡ false
    → last_index role ms (suc n) ≡ last_index role ms n
unfolding last_index
last_index-earlier role ms n = by_message (get_elem? ms n)
  where
    by_message :
        (o : Option Message)
        → elim o [ none ↦ false | some m ↦ has_role role m ] ≡ false
        → elim o [
          | none ↦ last_index role ms n
          | some m ↦ if has_role role m then some n else last_index role ms n
        ]
          ≡ last_index role ms n
    by_message none h = refl
    by_message (some m) h = rw h refl

Found-suc :
    (role : Text) (ms : List Message) (n : ℕ) (o : Option ℕ)
    → role_at role ms n ≡ false
    → Found role ms n o
    → Found role ms (suc n) o
Found-suc role ms n none quiet h = λ p low. elim (dec_lt p n) [
  | yes lower ↦ h p lower
  | no high ↦ ap (role_at role ms) {x = p} {y = n} (omega arith) ∙ quiet
]
Found-suc role ms n (some i) quiet (here, (low, free)) = (
  here,
  (
    omega arith,
    λ p above below. elim (dec_lt p n) [
      | yes lower ↦ free p above lower
      | no high ↦ ap (role_at role ms) {x = p} {y = n} (omega arith) ∙ quiet
    ],
  ),
)

pub last_index-Found :
    (role : Text) (ms : List Message) (n : ℕ) → Found role ms n (last_index role ms n)
unfolding last_index
last_index-Found role ms zero = λ p h. absurd (omega arith)
last_index-Found role ms (suc n) = elim (Bool-cases (role_at role ms n)) [
  | inl here ↦
      subst (Found role ms (suc n)) (sym (last_index-here role ms n here))
        (here, (omega arith, λ p above below. absurd (omega arith)))
  | inr other ↦
      subst (Found role ms (suc n)) (sym (last_index-earlier role ms n other))
        (Found-suc role ms n (last_index role ms n) other (last_index-Found role ms n))
]
