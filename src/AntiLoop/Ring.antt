-- ===== src/AntiLoop/Ring.antt =====
-- The ring, read as the list of the recorded calls, the newest first.
use mathlib.Core.List.{reverse, reverse-cons}
use gopheragent.Base.{
  ◌++◌, append_assoc, append-nil, take-append-take, ℕ, zero, suc, ◌+◌, ◌-◌, ◌%◌, ◌≤◌, ◌<◌, ◌≡◌,
  refl, ap, ◌∙◌, List, [], ◌∷◌, arith, length, take, sym, dec_lt, length-set, length-replicate,
  get_or-set_self, get_or-set_ne,
}
use gopheragent.AntiLoop.{
  CallEntry, LoopDetector, no_call, max_recent_calls, new_loop_detector, push, at,
}

pub record IsRing (ld : LoopDetector) : Type 0 where
  pub full_size : length ld.ring ≡ max_recent_calls
  pub head_in_range : ld.head < max_recent_calls
  pub count_bound : ld.count ≤ max_recent_calls

pub new_loop_detector-IsRing : IsRing new_loop_detector
unfolding new_loop_detector
new_loop_detector-IsRing = record {
  full_size = length-replicate 30 no_call;
  head_in_range = omega arith;
  count_bound = omega arith;
}

pub push-IsRing : (ld : LoopDetector) (e : CallEntry) → IsRing ld → IsRing (push ld e)
unfolding push
push-IsRing ld e v = record {
  full_size = length-set ld.ring ld.head e ∙ v.full_size;
  head_in_range = omega arith;
  count_bound = ground arith;
}

pub at-push_zero : (ld : LoopDetector) (e : CallEntry) → IsRing ld → at (push ld e) 0 ≡ e
unfolding push at
at-push_zero ld e v =
    let i : ((ld.head + 1) % max_recent_calls + max_recent_calls - 1 - 0) % max_recent_calls
        ≡ ld.head =
      omega arith in
    rw i (get_or-set_self ld.ring ld.head e no_call (omega arith))

pub at-push-suc :
    (ld : LoopDetector) (e : CallEntry) (k : ℕ)
    → IsRing ld
    → suc k < max_recent_calls
    → at (push ld e) (suc k) ≡ at ld k
unfolding push at
at-push-suc ld e k v h =
    let i : ((ld.head + 1) % max_recent_calls + max_recent_calls - 1 - suc k) % max_recent_calls
        ≡ (ld.head + max_recent_calls - 1 - k) % max_recent_calls =
      omega arith in
    rw i (get_or-set_ne ld.ring ld.head _ e no_call (omega arith))

-- The entries from `k` places before the newest on, `n` of them.
unfoldable pub from : LoopDetector → ℕ → ℕ → List CallEntry
from ld zero k = []
from ld (suc n) k = at ld k ∷ from ld n (suc k)

-- What the ring stands for: the valid entries, the newest first.
unfoldable pub recents : LoopDetector → List CallEntry
unfolding from
recents ld = from ld ld.count 0

from-push :
    (ld : LoopDetector) (e : CallEntry) (n k : ℕ)
    → IsRing ld
    → n + suc k ≤ max_recent_calls
    → from (push ld e) n (suc k) ≡ from ld n k
unfolding from
from-push ld e zero k v h = refl
from-push ld e (suc n) k v h =
    rw (at-push-suc ld e k v (omega arith), from-push ld e n (suc k) v (omega arith))

take_all : (ld : LoopDetector) (n m k : ℕ) → m ≤ n → take n (from ld m k) ≡ from ld m k
unfolding from
take_all ld zero zero k h = refl
take_all ld zero (suc m) k h = absurd (omega arith)
take_all ld (suc n) zero k h = refl
take_all ld (suc n) (suc m) k h = ap (◌∷◌ (at ld k)) (take_all ld n m (suc k) (omega arith))

take_some : (ld : LoopDetector) (n m k : ℕ) → n ≤ m → take n (from ld m k) ≡ from ld n k
unfolding from
take_some ld zero m k h = refl
take_some ld (suc n) zero k h = absurd (omega arith)
take_some ld (suc n) (suc m) k h = ap (◌∷◌ (at ld k)) (take_some ld n m (suc k) (omega arith))

-- The entries after a push, by the count that it leaves.
front-push :
    (ld : LoopDetector) (e : CallEntry) (n : ℕ)
    → IsRing ld
    → n < max_recent_calls
    → from (push ld e) (suc n) 0 ≡ e ∷ from ld n 0
unfolding from
front-push ld e n v h = rw (at-push_zero ld e v, from-push ld e n 0 v (omega arith))

-- AddCall puts the call in front of the recorded ones and keeps the newest thirty.
pub recents-push :
    (ld : LoopDetector) (e : CallEntry)
    → IsRing ld
    → recents (push ld e) ≡ take max_recent_calls (e ∷ recents ld)
unfolding recents
recents-push ld e v = elim (dec_lt ld.count max_recent_calls) [
  | yes room ↦
      let c : (push ld e).count ≡ suc ld.count = unfold push in ground arith in
      ap (λ n. from (push ld e) n 0) c
      ∙ front-push ld e ld.count v room
      ∙ ap (◌∷◌ e) (sym (take_all ld 29 ld.count 0 (omega arith)))
  | no full ↦
      let c : (push ld e).count ≡ 30 = unfold push in ground arith in
      ap (λ n. from (push ld e) n 0) c
      ∙ front-push ld e 29 v (omega arith)
      ∙ ap (◌∷◌ e) (sym (take_some ld 29 ld.count 0 (omega arith)))
]

-- A sequence of calls, in order of time.
unfoldable pub push_all : LoopDetector → List CallEntry → LoopDetector
push_all ld [] = ld
push_all ld (e ∷ es) = push_all (push ld e) es

recents-push_all :
    (es : List CallEntry) (ld : LoopDetector)
    → IsRing ld
    → recents (push_all ld es) ≡ take max_recent_calls (reverse es ++ recents ld)
unfolding push_all recents
recents-push_all [] ld v = sym (take_all ld 30 ld.count 0 v.count_bound)
recents-push_all (e ∷ es) ld v =
    recents-push_all es (push ld e) (push-IsRing ld e v)
    ∙ ap (λ l. take max_recent_calls (reverse es ++ l)) (recents-push ld e v)
    ∙ take-append-take 30 30 (reverse es) (e ∷ recents ld) (omega arith)
    ∙ ap (take max_recent_calls) (
        sym (append_assoc (reverse es) (e ∷ []) (recents ld))
        ∙ ap (λ l. l ++ recents ld) (sym (reverse-cons e es)))

-- A fresh detector that has recorded any sequence of calls holds the last thirty of them, the
-- newest first.
pub recents-new :
    (es : List CallEntry)
    → recents (push_all new_loop_detector es) ≡ take max_recent_calls (reverse es)
recents-new es =
    recents-push_all es new_loop_detector new_loop_detector-IsRing
    ∙ ap (take max_recent_calls) (unfold new_loop_detector recents in append-nil (reverse es))
