-- ===== src/Request/View/Insert.antt =====
-- A history with one more message in it.
use gopheragent.Base.{
  ℕ, zero, suc, ◌<◌, ◌≤◌, ◌≡◌, refl, sym, ap, ◌∙◌, Bool, true, false, List, [], ◌∷◌, arith, if_both,
  length, drop, get_elem?, if◌then◌else◌, some,
}
use mathlib.Core.Bool.{true≢false}
use gopheragent.History.{Message}
use gopheragent.Request.Window.{leading_system, is_head, user_at}
use gopheragent.Request.View.{insert_record}

pub length-insert :
    (xs : List Message) (at : ℕ) (r : Message) → length (insert_record xs at r) ≡ suc (length xs)
length-insert xs zero r = refl
length-insert [] (suc at) r = refl
length-insert (x ∷ xs) (suc at) r = ap suc (length-insert xs at r)

pub get-insert_below :
    (xs : List Message) (at i : ℕ) (r : Message)
    → i < at
    → at ≤ length xs
    → get_elem? (insert_record xs at r) i ≡ get_elem? xs i
get-insert_below xs zero i r h fits = absurd (omega arith)
get-insert_below [] (suc at) i r h fits = absurd (omega arith)
get-insert_below (x ∷ xs) (suc at) zero r h fits = refl
get-insert_below (x ∷ xs) (suc at) (suc i) r h fits =
    get-insert_below xs at i r (omega arith) (omega arith)

pub get-insert_self :
    (xs : List Message) (at : ℕ) (r : Message)
    → at ≤ length xs
    → get_elem? (insert_record xs at r) at ≡ some r
get-insert_self xs zero r fits = refl
get-insert_self [] (suc at) r fits = absurd (omega arith)
get-insert_self (x ∷ xs) (suc at) r fits = get-insert_self xs at r (omega arith)

pub get-insert_above :
    (xs : List Message) (at i : ℕ) (r : Message)
    → at ≤ i
    → at ≤ length xs
    → get_elem? (insert_record xs at r) (suc i) ≡ get_elem? xs i
get-insert_above xs zero i r h fits = refl
get-insert_above [] (suc at) i r h fits = absurd (omega arith)
get-insert_above (x ∷ xs) (suc at) zero r h fits = absurd (omega arith)
get-insert_above (x ∷ xs) (suc at) (suc i) r h fits =
    get-insert_above xs at i r (omega arith) (omega arith)

pub drop-insert :
    (xs : List Message) (at : ℕ) (r : Message)
    → at ≤ length xs
    → drop (suc at) (insert_record xs at r) ≡ drop at xs
drop-insert xs zero r fits = refl
drop-insert [] (suc at) r fits = absurd (omega arith)
drop-insert (x ∷ xs) (suc at) r fits = drop-insert xs at r (omega arith)

-- A message behind the system block does not belong to it.
pub leading_system-insert :
    (xs : List Message) (at : ℕ) (r : Message)
    → is_head r ≡ false
    → leading_system xs ≤ at
    → at ≤ length xs
    → leading_system (insert_record xs at r) ≡ leading_system xs
unfolding leading_system
leading_system-insert [] zero r none h fits =
    if_both (λ n. n ≡ 0) (is_head r) (λ hit. absurd (true≢false (sym hit ∙ none))) (λ _. refl)
leading_system-insert [] (suc at) r none h fits = absurd (omega arith)
leading_system-insert (x ∷ xs) zero r none h fits =
    if_both (λ n. n ≡ leading_system (x ∷ xs)) (is_head r)
      (λ hit. absurd (true≢false (sym hit ∙ none))) (λ _. omega arith)
leading_system-insert (x ∷ xs) (suc at) r none h fits =
    by_head (is_head x) (λ le. leading_system-insert xs at r none le (omega arith)) h
  where
    by_head :
        (b : Bool)
        → (leading_system xs ≤ at → leading_system (insert_record xs at r) ≡ leading_system xs)
        → (if b then suc (leading_system xs) else 0) ≤ suc at
        → (if b then suc (leading_system (insert_record xs at r)) else 0)
          ≡ (if b then suc (leading_system xs) else 0)
    by_head true rest le = ap suc (rest (omega arith))
    by_head false rest le = refl

pub user_at-drop : (xs : List Message) (i : ℕ) → user_at xs i ≡ user_at (drop i xs) 0
user_at-drop [] zero = refl
user_at-drop [] (suc i) = refl
user_at-drop (x ∷ xs) zero = refl
user_at-drop (x ∷ xs) (suc i) = user_at-drop xs i

pub user_at-bound : (xs : List Message) (i : ℕ) → user_at xs i ≡ true → i < length xs
user_at-bound [] i h = absurd (true≢false (sym h))
user_at-bound (x ∷ xs) zero h = omega arith
user_at-bound (x ∷ xs) (suc i) h = omega (arith, user_at-bound xs i h)
