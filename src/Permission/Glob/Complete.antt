-- ===== src/Permission/Glob/Complete.antt =====
-- The texts of the language of a pattern, against the loop. Its first branch reads a `*` of the
-- pattern as a plain byte where the text has one too, and forgets the others.
use mathlib.Core.Option.{get_or}
use gopheragent.Base.{
  ℕ, zero, suc, ◌≡◌, ◌≢◌, refl, inl, inr, ◌↔◌, Bool, true, false, [], ◌∷◌, none, some, arith, Text,
  All, ◌==◌, ◌||◌, Bool-cases,
}
use gopheragent.Permission.Glob.{star, question, Saved, Round, retry, only_stars, glob_loop}
use gopheragent.Permission.Glob.{glob_match, rounds}
use gopheragent.Permission.Glob.Language.{
  Matches, round_cases, one_inv, star_inv, star_end, star-star, star_one, not-Matches-nil, no_room,
  Accepts,
}
use gopheragent.Permission.Glob.Sound.{Resumes, glob_match_sound}
use gopheragent.Permission.Glob.Total.{glob_loop-rounds}

abbrev pub StarFree : Text → Type 0
StarFree = All λ c. c ≢ star

only_stars_complete : (p : Text) → only_stars p ≡ false → ¬ Matches p []
unfolding only_stars
only_stars_complete [] h m = cc
only_stars_complete (x ∷ p) h m = elim (Bool-cases (x == star)) [
  | inl e ↦ only_stars_complete p (ground arith) (star_end (ground arith) m)
  | inr n ↦ no_room (ground arith) m
]

-- How the saved star relates to the position now: its text has no star, all that it could match is
-- still reachable from here with a star in front, and what matches right behind it matches here.
abbrev Follows : Text → Text → Saved → Type 0
Follows p s none = Unit {0}
Follows p s (some (q, t)) =
    StarFree t × (Matches (star ∷ q) t → Matches (star ∷ p) s) × (Matches q t → Matches p s)

abbrev Rejects : Text → Text → Saved → Type 0
Rejects p s saved = (¬ Matches p s) × (¬ Resumes saved)

abbrev Complete : Round → Type 0
Complete next =
    (p s : Text) (saved : Saved)
    → StarFree s
    → Follows p s saved
    → next p s saved ≡ some false
    → Rejects p s saved

retry-Complete :
    (next : Round) (p s : Text) (c : ℕ) (saved : Saved)
    → Complete next
    → Follows p (c ∷ s) saved
    → ¬ Matches p (c ∷ s)
    → retry saved next ≡ some false
    → ¬ Resumes saved
unfolding retry
retry-Complete next p s c none complete v n h m = m
retry-Complete next p s c (some (q, [])) complete v n h m = n (v.2 (star_end refl m))
retry-Complete next p s c (some (q, d ∷ t)) complete v n h m =
    let (rejected, spent) = complete q t (some (q, t)) v.0.1 (v.0.1, λ k. k, λ k. k) h in
    elim (star_inv refl m) [ inl k ↦ n (v.2 k) | inr k ↦ spent k ]

-- Recording a new star loses nothing of the old one.
star-Rejects :
    (x c : ℕ) (p s : Text) (saved : Saved)
    → x ≡ star
    → Follows (x ∷ p) (c ∷ s) saved
    → Rejects p (c ∷ s) (some (p, c ∷ s))
    → Rejects (x ∷ p) (c ∷ s) saved
star-Rejects x c p s none e v r = (λ m. r.1 (rw e at m), λ m. m)
star-Rejects x c p s (some (q, t)) e v r =
    (λ m. r.1 (rw e at m), λ m. r.1 (rw e at (star-star refl e (v.1 m))))

byte-Follows :
    (x c : ℕ) (p s : Text) (saved : Saved)
    → x ≢ star
    → Follows (x ∷ p) (c ∷ s) saved
    → Follows p s saved
byte-Follows x c p s none n v = tt
byte-Follows x c p s (some (q, t)) n v =
    (v.0, λ m. star_one s refl n (v.1 m), λ m. (one_inv n (v.2 m)).1)

glob_loop-Complete : (f : ℕ) → Complete (glob_loop f)
unfolding glob_loop
glob_loop-Complete zero p s saved free v h = cc
glob_loop-Complete (suc f) p [] saved free v h = at_end p saved v (ground arith)
  where
    at_end :
        (p : Text) (saved : Saved) → Follows p [] saved → only_stars p ≡ false → Rejects p [] saved
    at_end p none v h = (only_stars_complete p h, λ m. m)
    at_end p (some (q, t)) v h =
        (only_stars_complete p h, λ m. only_stars_complete p h (star_end refl (v.1 m)))
glob_loop-Complete (suc f) [] (c ∷ s) saved free v h =
    (not-Matches-nil, retry-Complete _ [] s c saved (glob_loop-Complete f) v not-Matches-nil h)
glob_loop-Complete (suc f) (x ∷ p) (c ∷ s) saved free v h = elim (round_cases x c) [
  | inl e ↦
      let n : x ≢ star = ground arith in
      let r = glob_loop-Complete f p s saved free.1 (byte-Follows x c p s saved n v) (rw e at h) in
      (λ m. r.0 (one_inv n m).1, r.1)
  | inr (inl (e, d)) ↦ star-Rejects x c p s saved (ground arith) v (
      glob_loop-Complete f p (c ∷ s) (some (p, c ∷ s)) free (free, λ k. k, λ k. k) (rw (e, d) at h))
  | inr (inr (e, d)) ↦
      let n : ¬ Matches (x ∷ p) (c ∷ s) = λ m. mismatch x c e ((one_inv (ground arith) m).0) in
      (n, retry-Complete _ (x ∷ p) s c saved (glob_loop-Complete f) v n (rw (e, d) at h))
]
  where
    mismatch : (x c : ℕ) → (x == c || x == question) ≡ false → ¬ Accepts x c
    mismatch x c e a = ground arith

-- On a text without a star, `globMatch` says true exactly when the text is in the language of the
-- pattern.
pub glob_match_iff : (p s : Text) → StarFree s → (glob_match p s ≡ true) ↔ Matches p s
unfolding glob_match
glob_match_iff p s free = (glob_match_sound p s, accepted (glob_loop-rounds p s))
  where
    accepted :
        (b : Bool) × (glob_loop (rounds p s) p s none ≡ some b)
        → Matches p s
        → get_or (glob_loop (rounds p s) p s none) false ≡ true
    accepted (true, e) m = rw e
    accepted (false, e) m = absurd ((glob_loop-Complete (rounds p s) p s none free tt e).0 m)
