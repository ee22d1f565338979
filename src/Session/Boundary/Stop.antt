-- ===== src/Session/Boundary/Stop.antt =====
-- Where the loop over the cut stops.
use gopheragent.Base.{
  ℕ, zero, suc, ◌<◌, ◌≤◌, ◌≡◌, refl, ◌⊎◌, inl, inr, List, [], ◌∷◌, Option, none, some, arith,
  if_both, option_both, min, Text, length, take, drop, get_elem?,
}
use gopheragent.History.{Message, has_role, role_tool}
use gopheragent.Session.Boundary.{
  calls_tools, ends_scan, assistant_before, still_required, ids_of, calls_at, group_end, next_end,
  snap_loop, snap_to_safe_boundary,
}

-- What an option of a number holds is below `n`.
abbrev Below : ℕ → Option ℕ → Type 0
Below n none = Unit
Below n (some i) = i < n

Below-widen : (n : ℕ) (o : Option ℕ) → Below n o → Below (suc n) o
Below-widen n none h = tt
Below-widen n (some i) h = omega arith

assistant_before-Below : (msgs : List Message) (n : ℕ) → Below n (assistant_before msgs n)
unfolding assistant_before
assistant_before-Below msgs zero = tt
assistant_before-Below msgs (suc n) =
    let wide = Below-widen n (assistant_before msgs n) (assistant_before-Below msgs n) in
    option_both (Below (suc n)) (get_elem? msgs n) (λ _. wide)
      (λ m _.
        if_both (Below (suc n)) (calls_tools m) (λ _. omega arith)
          (λ _. if_both (Below (suc n)) (ends_scan m) (λ _. tt) (λ _. wide)))

group_end-Below :
    (msgs : List Message) (e : ℕ) (o : Option ℕ) → Below e o → Below (suc e) (group_end msgs e o)
group_end-Below msgs e none h = omega arith
group_end-Below msgs e (some asst) h =
    whole (still_required (ids_of (calls_at msgs asst)) (drop (suc asst) (take (suc e) msgs)))
  where
    whole :
        (required : List Text) → Below (suc e) (elim required [ [] ↦ none | ◌∷◌ _ _ ↦ some asst ])
    whole [] = tt
    whole (id ∷ ids) = omega arith

next_end-Below : (msgs : List Message) (e : ℕ) → Below (suc e) (next_end msgs e)
unfolding next_end
next_end-Below msgs e =
    option_both (Below (suc e)) (get_elem? msgs e) (λ _. tt)
      (λ m _.
        if_both (Below (suc e)) (calls_tools m) (λ _. omega arith)
          (λ _.
            if_both (Below (suc e)) (has_role role_tool m)
              (λ _.
                group_end-Below msgs e (assistant_before msgs e) (assistant_before-Below msgs e))
              (λ _. tt)))

-- A cut at or below `end` that no round moves.
abbrev pub Stopped : List Message → ℕ → ℕ → Type 0
Stopped msgs end r = (r ≤ end) × ((r ≡ 0) ⊎ ((e : ℕ) × ((r ≡ suc e) × (next_end msgs e ≡ none))))

snap_loop-Stopped :
    (fuel : ℕ) (msgs : List Message) (end : ℕ)
    → end ≤ fuel
    → Stopped msgs end (snap_loop fuel msgs end)
unfolding snap_loop
snap_loop-Stopped zero msgs end h = (omega arith, inl refl)
snap_loop-Stopped (suc fuel) msgs zero h = (omega arith, inl refl)
snap_loop-Stopped (suc fuel) msgs (suc e) h =
    round (next_end msgs e) refl (next_end-Below msgs e) (snap_loop-Stopped fuel msgs)
  where
    round :
        (o : Option ℕ)
        → next_end msgs e ≡ o
        → Below (suc e) o
        → ((end : ℕ) → end ≤ fuel → Stopped msgs end (snap_loop fuel msgs end))
        → Stopped msgs (suc e) (elim o [ none ↦ suc e | some lower ↦ snap_loop fuel msgs lower ])
    round none q below rest = (omega arith, inr (e, (refl, q)))
    round (some lower) q below rest =
        let (bound, stop) = rest lower (omega arith) in (omega arith, stop)

-- The cut is at most the one that was asked for, and no round would move it further.
pub snap_to_safe_boundary-Stopped :
    (msgs : List Message) (at : ℕ)
    → Stopped msgs (min at (length msgs)) (snap_to_safe_boundary msgs at)
unfolding snap_to_safe_boundary
snap_to_safe_boundary-Stopped msgs at =
    snap_loop-Stopped (min at (length msgs)) msgs (min at (length msgs)) (omega arith)

-- The rounds of the loop, from an end to the one that it answers with.
pub data Course (msgs : List Message) : ℕ → ℕ → Type 0 where
  empty : Course msgs 0 0
  stays : {e : ℕ} → next_end msgs e ≡ none → Course msgs (suc e) (suc e)
  moves :
      {e lower r : ℕ} → next_end msgs e ≡ some lower → Course msgs lower r → Course msgs (suc e) r

snap_loop-Course :
    (fuel : ℕ) (msgs : List Message) (end : ℕ)
    → end ≤ fuel
    → Course msgs end (snap_loop fuel msgs end)
unfolding snap_loop
snap_loop-Course zero msgs zero h = empty
snap_loop-Course zero msgs (suc e) h = absurd (omega arith)
snap_loop-Course (suc fuel) msgs zero h = empty
snap_loop-Course (suc fuel) msgs (suc e) h =
    round (next_end msgs e) refl (next_end-Below msgs e) (snap_loop-Course fuel msgs)
  where
    round :
        (o : Option ℕ)
        → next_end msgs e ≡ o
        → Below (suc e) o
        → ((end : ℕ) → end ≤ fuel → Course msgs end (snap_loop fuel msgs end))
        → Course msgs (suc e) (elim o [ none ↦ suc e | some lower ↦ snap_loop fuel msgs lower ])
    round none q below rest = stays q
    round (some lower) q below rest = moves q (rest lower (omega arith))

-- The loop always comes to its own end: the cut is where its rounds lead, never where they run out.
pub snap_to_safe_boundary-Course :
    (msgs : List Message) (at : ℕ)
    → Course msgs (min at (length msgs)) (snap_to_safe_boundary msgs at)
unfolding snap_to_safe_boundary
snap_to_safe_boundary-Course msgs at =
    snap_loop-Course (min at (length msgs)) msgs (min at (length msgs)) (omega arith)
