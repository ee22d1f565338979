-- ===== src/Permission/Glob/Gap.antt =====
-- Where `globMatch` misses a text of the language: a star of the pattern that meets a star in the
-- text is taken for a plain byte, and no star is saved.
use gopheragent.Base.{
  ℕ, zero, suc, ◌+◌, ◌<◌, ◌≡◌, refl, inl, false, [], ◌∷◌, ◌++◌, none, some, arith, Text, length,
  length-append,
}
use gopheragent.Permission.Glob.{star, glob_loop, retry, rounds, glob_match}
use gopheragent.Permission.Glob.Language.{Matches, finish, one, leave, extend}
use gopheragent.Permission.Glob.Complete.{StarFree}

trailing_star_loop :
    (w : Text) (c : ℕ) (t : Text) (f : ℕ)
    → length w + 1 < f
    → glob_loop f (w ++ star ∷ []) (w ++ star ∷ c ∷ t) none ≡ some false
unfolding glob_loop retry
trailing_star_loop w c t zero h = absurd (omega arith)
trailing_star_loop [] c t (suc zero) h = absurd (omega arith)
trailing_star_loop [] c t (suc (suc f)) h = refl
trailing_star_loop (x ∷ w) c t (suc f) h = ground (arith, trailing_star_loop w c t f (omega arith))

rest_any : (s : Text) → Matches (star ∷ []) s
rest_any [] = leave refl finish
rest_any (c ∷ s) = extend refl (rest_any s)

trailing_star-Matches : (w s : Text) → StarFree w → Matches (w ++ star ∷ []) (w ++ s)
trailing_star-Matches [] s free = rest_any s
trailing_star-Matches (x ∷ w) s free = one (free.0, inl refl) (trailing_star-Matches w s free.1)

-- A pattern of plain bytes `w` and a final star never accepts `w`, a star and at least one byte
-- more, though every such text is in its language.
pub trailing_star_gap :
    (w : Text) (c : ℕ) (t : Text)
    → StarFree w
    → Matches (w ++ star ∷ []) (w ++ star ∷ c ∷ t)
      × (glob_match (w ++ star ∷ []) (w ++ star ∷ c ∷ t) ≡ false)
unfolding glob_match rounds
trailing_star_gap w c t free =
    (trailing_star-Matches w (star ∷ c ∷ t) free, rw (trailing_star_loop w c t _ enough))
  where
    enough : length w + 1 < rounds (w ++ star ∷ []) (w ++ star ∷ c ∷ t)
    enough = grind (arith, length-append w (star ∷ []), length-append w (star ∷ c ∷ t))
