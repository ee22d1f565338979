-- ===== src/Request/Window/Start.antt =====
-- Where the window starts.
use native.Mathlib.Nat.{div-add-mod, mod-lt}
use gopheragent.Base.{
  ℕ, zero, suc, ◌+◌, ◌-◌, ◌*◌, ◌/◌, ◌≤◌, ◌<◌, ◌≡◌, refl, sym, subst, ℕ_discrete, ◌⊎◌, inl, inr,
  true, false, ◌||◌, List, arith, if_both, length, leb, ◌==◌,
}
use gopheragent.History.{Message}
use gopheragent.Request.Window.{
  leading_system, user_at, step_of, cut_of, snap_back, history_window_start,
}

-- Rounding up to a multiple.
round_up : (a s : ℕ) → 0 < s → (a ≤ (a + s - 1) / s * s) × ((a + s - 1) / s * s < a + s)
round_up a s pos =
    let whole = div-add-mod (a + s - 1) s in
    let below = mod-lt (a + s - 1) pos in (omega arith, omega arith)

-- The cut leaves more than half a window, and no more than a window.
pub cut_of-bounds :
    (size sys window : ℕ)
    → 0 < window
    → window < size - sys
    → (sys < cut_of size sys window)
      × ((cut_of size sys window < size)
          × ((size ≤ cut_of size sys window + window)
              × (window < size - cut_of size sys window + step_of window)))
unfolding cut_of
cut_of-bounds size sys window pos big =
    let (low, high) = round_up (size - sys - window) (step_of window) (omega arith) in
    (omega arith, (omega arith, (omega arith, omega arith)))

-- `r` is the nearest user message at or before `sys + k`, or the end of the system block.
abbrev pub Snapped : List Message → ℕ → ℕ → ℕ → Type 0
Snapped stored sys k r =
    ((r ≡ sys) ⊎ ((sys < r) × ((r ≤ sys + k) × (user_at stored r ≡ true))))
    × ((i : ℕ) → r < i → i ≤ sys + k → user_at stored i ≡ false)

pub snap_back-Snapped :
    (stored : List Message) (sys k : ℕ) → Snapped stored sys k (snap_back stored sys k)
unfolding snap_back
snap_back-Snapped stored sys zero = (inl refl, λ i a b. absurd (omega arith))
snap_back-Snapped stored sys (suc k) =
    if_both (λ r. Snapped stored sys (suc k) r) (user_at stored (sys + suc k))
      (λ hit. (inr (omega arith, (omega arith, hit)), λ i a b. absurd (omega arith)))
      (λ miss.
        let (place, free) = snap_back-Snapped stored sys k in
        (
          elim place [ inl e ↦ inl e | inr (low, (high, hit)) ↦ inr (low, (omega arith, hit)) ],
          λ i a b. elim (ℕ_discrete i (sys + suc k)) [
            | yes e ↦ subst (λ j. user_at stored j ≡ false) (sym e) miss
            | no n ↦ free i a (omega arith)
          ],
        ))

-- If a conversation is larger than a positive window, then the window starts at the newest user
-- message between the system block and the cut, or drops nothing when there is none; and the cut
-- lies in the history, with at most a window and more than a window less one step behind it.
pub history_window_start_lem :
    (stored : List Message) (window : ℕ)
    → 0 < window
    → window < length stored - leading_system stored
    → Snapped stored
        (leading_system stored)
        (cut_of (length stored) (leading_system stored) window - leading_system stored)
        (history_window_start stored window).0
      × ((cut_of (length stored) (leading_system stored) window < length stored)
          × ((length stored ≤ cut_of (length stored) (leading_system stored) window + window)
              × (window
                  < length stored
                    - cut_of (length stored) (leading_system stored) window
                    + step_of window)))
unfolding history_window_start
history_window_start_lem stored window pos big =
    let sys = leading_system stored in
    let (low, rest) = cut_of-bounds (length stored) sys window pos big in
    (
      if_both (λ (r : ℕ × ℕ). Snapped stored sys (cut_of (length stored) sys window - sys) r.0)
          (window == 0 || leb (length stored - sys) window) (λ fits. absurd (ground arith))
          (λ _. snap_back-Snapped stored sys (cut_of (length stored) sys window - sys)),
      rest,
    )
