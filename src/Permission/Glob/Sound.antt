-- ===== src/Permission/Glob/Sound.antt =====
-- The texts that the loop accepts, against the language of the pattern.
use gopheragent.Base.{
  ℕ, zero, suc, ◌≡◌, refl, ap, ◌⊎◌, inl, inr, Bool, true, false, [], ◌∷◌, Option, none, some, arith,
  Text,
}
use mathlib.Core.Option.{get_or}
use gopheragent.Permission.Glob.{star, Saved, Round, retry, only_stars, glob_loop}
use gopheragent.Permission.Glob.{glob_match, rounds}
use gopheragent.Permission.Glob.Language.{
  Matches, finish, leave, extend, round_cases, Matches-first,
}

-- What the saved star can still match.
abbrev pub Resumes : Saved → Type 0
Resumes none = ⊥
Resumes (some (p, s)) = Matches (star ∷ p) s

only_stars-Matches : (p : Text) → only_stars p ≡ true → Matches p []
unfolding only_stars
only_stars-Matches [] h = finish
only_stars-Matches (x ∷ p) h = leave (ground arith) (only_stars-Matches p (ground arith))

abbrev Sound : Round → Type 0
Sound next = (p s : Text) (saved : Saved) → next p s saved ≡ some true → Matches p s ⊎ Resumes saved

retry-Sound :
    (next : Round) (saved : Saved) → Sound next → retry saved next ≡ some true → Resumes saved
unfolding retry
retry-Sound next none sound h = cc
retry-Sound next (some (p, [])) sound h = elim (sound p [] (some (p, [])) h) [
  | inl m ↦ leave refl m
  | inr m ↦ m
]
retry-Sound next (some (p, c ∷ s)) sound h = elim (sound p s (some (p, s)) h) [
  | inl m ↦ extend refl (leave refl m)
  | inr m ↦ extend refl m
]

glob_loop-Sound : (f : ℕ) → Sound (glob_loop f)
unfolding glob_loop
glob_loop-Sound zero p s saved h = cc
glob_loop-Sound (suc f) [] [] saved h = inl (only_stars-Matches [] (ground arith))
glob_loop-Sound (suc f) (x ∷ p) [] saved h = inl (only_stars-Matches (x ∷ p) (ground arith))
glob_loop-Sound (suc f) [] (c ∷ s) saved h = inr (retry-Sound _ saved (glob_loop-Sound f) h)
glob_loop-Sound (suc f) (x ∷ p) (c ∷ s) saved h = elim (round_cases x c) [
  | inl e ↦ elim (glob_loop-Sound f p s saved (rw e at h)) [
    | inl m ↦ inl (Matches-first e m)
    | inr m ↦ inr m
  ]
  | inr (inl (e, d)) ↦ elim (glob_loop-Sound f p (c ∷ s) (some (p, c ∷ s)) (rw (e, d) at h)) [
    | inl m ↦ inl (leave (ground arith) m)
    | inr m ↦ let b : x ≡ star = ground arith in inl (rw b m)
  ]
  | inr (inr (e, d)) ↦ inr (retry-Sound _ saved (glob_loop-Sound f) (rw (e, d) at h))
]

get_or-true : (o : Option Bool) → get_or o false ≡ true → o ≡ some true
get_or-true none h = cc
get_or-true (some b) h = ap some h

-- A text that `globMatch` accepts is in the language of the pattern, for every pattern and text.
pub glob_match_sound : (p s : Text) → glob_match p s ≡ true → Matches p s
unfolding glob_match
glob_match_sound p s h = elim (glob_loop-Sound (rounds p s) p s none (get_or-true _ h)) [
  | inl m ↦ m
  | inr e ↦ absurd e
]
