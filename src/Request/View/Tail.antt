-- ===== src/Request/View/Tail.antt =====
-- The view as system messages and a tail of the stored history, and where a record stands.
use gopheragent.Base.{
  ℕ, zero, suc, ◌+◌, ◌-◌, ◌<◌, ◌≤◌, ◌≡◌, refl, sym, ap, subst, ◌∙◌, true, false, List, [], ◌∷◌,
  ◌++◌, arith, if_both, ℕ_discrete, dec_lt, length, drop, Option, none, some, length-take,
}
use mathlib.Core.Bool.{true≢false}
use gopheragent.History.{Message}
use gopheragent.Request.Window.{leading_system, is_head}
use gopheragent.Request.View.{
  record_at, record_below, latest_compaction, framed, view_from, compacted_view,
}

-- The newest record at or above `sys` and below `sys + k`, or none.
abbrev pub Newest : List Message → ℕ → ℕ → Option ℕ → Type 0
Newest stored sys k none = (i : ℕ) → sys ≤ i → i < sys + k → record_at stored i ≡ false
Newest stored sys k (some r) =
    (record_at stored r ≡ true)
    × ((sys ≤ r) × ((r < sys + k) × ((i : ℕ) → r < i → i < sys + k → record_at stored i ≡ false)))

pub record_below-Newest :
    (stored : List Message) (sys k : ℕ) → Newest stored sys k (record_below stored sys k)
unfolding record_below
record_below-Newest stored sys zero = λ i a b. absurd (omega arith)
record_below-Newest stored sys (suc k) =
    if_both (Newest stored sys (suc k)) (record_at stored (sys + k))
      (λ hit. (hit, (omega arith, (omega arith, λ i a b. absurd (omega arith)))))
      (λ miss. widened (record_below stored sys k) miss (record_below-Newest stored sys k))
  where
    top :
        (i : ℕ)
        → record_at stored (sys + k) ≡ false
        → i < sys + suc k
        → (i < sys + k → record_at stored i ≡ false)
        → record_at stored i ≡ false
    top i miss b below = elim (ℕ_discrete i (sys + k)) [
      | yes e ↦ subst (λ j. record_at stored j ≡ false) (sym e) miss
      | no n ↦ below (omega arith)
    ]

    widened :
        (o : Option ℕ)
        → record_at stored (sys + k) ≡ false
        → Newest stored sys k o
        → Newest stored sys (suc k) o
    widened none miss h = λ i a b. top i miss b (h i a)
    widened (some r) miss (hit, (low, (high, free))) =
        (hit, (low, (omega arith, λ i a b. top i miss b (free i a))))

-- A newest record is determined by what stands at each index.
pub Newest-unique :
    (stored : List Message) (sys k : ℕ) (o : Option ℕ) (r : ℕ)
    → Newest stored sys k o
    → Newest stored sys k (some r)
    → o ≡ some r
Newest-unique stored sys k none r h (hit, (low, (high, free))) =
    absurd (true≢false (sym hit ∙ h r low high))
Newest-unique stored sys k (some q) r (hit', (low', (high', free'))) (hit, (low, (high, free))) =
    elim (ℕ_discrete q r) [
      | yes e ↦ ap some e
      | no n ↦ elim (dec_lt q r) [
        | yes below ↦ absurd (true≢false (sym hit ∙ free' r below high))
        | no above ↦ absurd (true≢false (sym hit' ∙ free q (omega arith) high'))
      ]
    ]

length-framed :
    (stored : List Message) (n rec : ℕ)
    → suc n ≤ length stored
    → length (framed stored (suc n) rec) ≡ suc n
length-framed [] n rec h = absurd (omega arith)
length-framed (m ∷ ms) n rec h = omega (arith, length-take n ms)

pub leading_system-bound : (stored : List Message) → leading_system stored ≤ length stored
unfolding leading_system
leading_system-bound [] = omega arith
leading_system-bound (m ∷ ms) =
    if_both (λ (n : ℕ). n ≤ suc (length ms)) (is_head m)
      (λ _. omega (arith, leading_system-bound ms)) (λ _. omega arith)

pub drop-append_length :
    (n m : ℕ) (xs ys : List Message) → n ≡ length xs + m → drop n (xs ++ ys) ≡ drop m ys
drop-append_length n m [] ys h = subst (λ j. drop j ys ≡ drop m ys) {x = m} (omega arith) refl
drop-append_length zero m (x ∷ xs) ys h = absurd (omega arith)
drop-append_length (suc n) m (x ∷ xs) ys h = drop-append_length n m xs ys (omega arith)

drop-nil : (n : ℕ) → drop {A = Message} n [] ≡ []
drop-nil zero = refl
drop-nil (suc n) = refl

pub drop-drop : (n k j : ℕ) (xs : List Message) → j ≡ n + k → drop n (drop k xs) ≡ drop j xs
drop-drop n zero j xs h = ap (λ m. drop m xs) {x = n} {y = j} (omega arith)
drop-drop n (suc k) j [] h = drop-nil n ∙ sym (drop-nil j)
drop-drop n (suc k) zero (x ∷ xs) h = absurd (omega arith)
drop-drop n (suc k) (suc j) (x ∷ xs) h = drop-drop n k j xs (omega arith)

view_from-tail :
    (stored : List Message) (sys : ℕ) (o : Option ℕ) (i : ℕ)
    → sys ≤ length stored
    → Newest stored sys (length stored - sys) o
    → (view_from stored sys o).head ≤ i
    → drop i (view_from stored sys o).msgs ≡ drop (i + (view_from stored sys o).shift) stored
view_from-tail stored sys none i fits new h =
    ap (λ m. drop m stored) {x = i} {y = i + 0} (omega arith)
view_from-tail stored zero (some rec) zero fits new h = absurd (omega arith)
view_from-tail stored zero (some rec) (suc i) fits new h =
    drop-drop i (suc rec) (suc i + rec) stored (omega arith)
view_from-tail stored (suc n) (some rec) i fits (hit, (low, (high, free))) h =
    drop-append_length i (i - suc n) (framed stored (suc n) rec) (drop (suc rec) stored)
      (omega (arith, length-framed stored n rec fits))
    ∙ drop-drop (i - suc n) (suc rec) (i + (suc rec - suc n)) stored (omega arith)

-- Behind its system messages the view reads the stored history at the index that `storedIndex`
-- gives.
pub compacted_view-tail :
    (stored : List Message) (i : ℕ)
    → (compacted_view stored).head ≤ i
    → drop i (compacted_view stored).msgs ≡ drop (i + (compacted_view stored).shift) stored
unfolding compacted_view latest_compaction
compacted_view-tail stored i h =
    let sys = leading_system stored in
    view_from-tail stored sys (record_below stored sys (length stored - sys)) i
      (leading_system-bound stored) (record_below-Newest stored sys (length stored - sys)) h
