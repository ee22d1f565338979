-- ===== src/Permission/Glob/Total.antt =====
-- The rounds of the loop.
use gopheragent.Base.{
  ℕ, zero, suc, ◌+◌, ◌*◌, ◌≤◌, ◌<◌, ◌≡◌, refl, inl, inr, Bool, [], ◌∷◌, none, some, arith, Text,
  length,
}
use gopheragent.Permission.Glob.{Saved, Round, retry, glob_loop, rounds}
use gopheragent.Permission.Glob.Language.{round_cases}

-- Every pattern in play is shorter than `k`, and at most `m` bytes are left behind the saved star.
module _ (k : ℕ) where
  abbrev Fits : ℕ → Text → Saved → Type 0
  Fits m s none = Unit {0}
  Fits m s (some (q, t)) = (length q < k) × (length s ≤ length t) × (length t ≤ m)

  abbrev Ends : ℕ → Round → Type 0
  Ends f next =
      (m : ℕ) (p s : Text) (saved : Saved)
      → length p < k
      → length s ≤ m
      → Fits m s saved
      → m * k + length p < f
      → (b : Bool) × (next p s saved ≡ some b)

  retry-Ends :
      (f m n c : ℕ) (s : Text) (saved : Saved) (next : Round)
      → Ends f next
      → Fits m (c ∷ s) saved
      → m * k < suc f
      → (b : Bool) × (retry saved next ≡ some b)
  unfolding retry
  retry-Ends f m n c s none next ends fits h = (_, refl)
  retry-Ends f m n c s (some (q, [])) next ends fits h = absurd (omega arith)
  retry-Ends f zero n c s (some (q, d ∷ t)) next ends fits h = absurd (omega arith)
  retry-Ends f (suc m) n c s (some (q, d ∷ t)) next ends fits h =
      ends m q t (some (q, t)) fits.0 (omega arith) (fits.0, omega arith, omega arith) (omega arith)

  glob_loop-Ends : (f : ℕ) → Ends f (glob_loop f)
  unfolding glob_loop
  glob_loop-Ends zero m p s saved hp hs fits h = absurd (omega arith)
  glob_loop-Ends (suc f) m p [] saved hp hs fits h = (_, refl)
  glob_loop-Ends (suc f) m [] (c ∷ s) saved hp hs fits h =
      retry-Ends f m 0 c s saved _ (glob_loop-Ends f) fits (omega arith)
  glob_loop-Ends (suc f) m (x ∷ p) (c ∷ s) saved hp hs fits h = elim (round_cases x c) [
    | inl e ↦ rw e (
        glob_loop-Ends f m p s saved (omega arith) (omega arith) (shorter saved fits) (omega arith))
    | inr (inl (e, d)) ↦
        rw (e, d)
          (glob_loop-Ends f m p (c ∷ s) (some (p, c ∷ s)) (omega arith) hs
            (omega arith, omega arith, hs) (omega arith))
    | inr (inr (e, d)) ↦
        rw (e, d) (retry-Ends f m 0 c s saved _ (glob_loop-Ends f) fits (omega arith))
  ]
    where
      shorter : (saved : Saved) → Fits m (c ∷ s) saved → Fits m s saved
      shorter none v = tt
      shorter (some (q, t)) v = (v.0, omega arith, v.2)

-- `globMatch` always answers: the loop never runs out of its rounds.
pub glob_loop-rounds : (p s : Text) → (b : Bool) × (glob_loop (rounds p s) p s none ≡ some b)
unfolding rounds
glob_loop-rounds p s =
    glob_loop-Ends (length p + 1) _ (length s) p s none (omega arith) (omega arith) tt (omega arith)
