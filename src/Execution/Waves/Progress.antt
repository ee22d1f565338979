-- ===== src/Execution/Waves/Progress.antt =====
-- The replies to the calls of waves that run to their end.
use mathlib.Core.Logic.{∥∥₁_elim}
use mathlib.Core.List.{flatten, Permᴰ}
use gopheragent.Base.{
  ◌≡◌, refl, sym, ap, ◌∙◌, ◌⊎◌, inl, inr, Bool, true, false, ◌||◌, List, [], ◌∷◌, ◌++◌, Option,
  none, some, if_both, Bool-cases, Result, ok, err, All, Text, same,
}
use mathlib.Core.Bool.{true≢false, Bool-set}
use gopheragent.AntiLoop.{Verdict}
use gopheragent.Scheduler.{PendingToolCall, has_key, ids_of, schedule_tool_calls, ScheduleError}
use gopheragent.Scheduler.Order.{schedule-Ordered}
use gopheragent.Execution.State.{WaveState, unfinished}
use gopheragent.Execution.Host.{World, emit, thought, scheduler_fallback}
use gopheragent.Execution.Replies.{Held, Calm}
use gopheragent.Execution.Waves.{
  WaveHost, substitute_wave_args, split_gated_duplicates, execute_wave, is_stopped, execute_waves,
  execute_tool_waves,
}
use gopheragent.Execution.Waves.Substituted.{unfinished-Held, substitute-Substituted}
use gopheragent.Execution.Waves.Splits.{or_true, split-Covers, split-Led}
use gopheragent.Execution.Waves.Copies.{Arranges, HeldAll, dispatch-Held, dispatch-HeldAll}

wave-Held :
    (h : WaveHost) (wave : List PendingToolCall) (w : World) (k : Text)
    → Held w.ws.tool_msgs k
    → Held (execute_wave h wave w).ws.tool_msgs k
unfolding execute_wave
wave-Held h wave w k held =
    let r = substitute_wave_args h (unfinished w.ws wave) w in
    let (course, (keeps, covers)) = substitute-Substituted h (unfinished w.ws wave) w in
    dispatch-Held h (split_gated_duplicates h.host r.0) r.1 k (keeps k held)

wave-HeldAll :
    (h : WaveHost) (wave : List PendingToolCall) (w : World)
    → Arranges h.arrange
    → Calm (execute_wave h wave w).ws
    → HeldAll (execute_wave h wave w) wave
unfolding execute_wave
wave-HeldAll h wave w arranges calm k hit =
    let r = substitute_wave_args h (unfinished w.ws wave) w in
    let (course, (keeps, covers)) = substitute-Substituted h (unfinished w.ws wave) w in
    let split = split_gated_duplicates h.host r.0 in
    elim (unfinished-Held w.ws wave k hit) [
      | inl held ↦ dispatch-Held h split r.1 k (keeps k held)
      | inr left ↦ elim (covers k left) [
        | inl held ↦ dispatch-Held h split r.1 k held
        | inr out ↦
            dispatch-HeldAll h r.0 split r.1 arranges (split-Covers h.host r.0)
              (λ P. split-Led P h.host r.0) calm k out
      ]
    ]

Calm-running : (ws : WaveState) → Calm ws → is_stopped ws ≡ false
Calm-running ws (fatal, pending) = rw (fatal, pending) refl

running-Calm : (ws : WaveState) → is_stopped ws ≡ false → Calm ws
running-Calm ws = by_fields ws.fatal_err ws.pending
  where
    by_fields :
        (f : Option Verdict) (p : List PendingToolCall)
        → (elim f as (λ _. Bool) [ some _ ↦ true | none ↦ elim p [ [] ↦ false | ◌∷◌ _ _ ↦ true ] ])
          ≡ false
        → (f ≡ none) × (p ≡ [])
    by_fields (some v) p h = absurd (true≢false h)
    by_fields none (c ∷ p) h = absurd (true≢false h)
    by_fields none [] h = (refl, refl)

waves-Held :
    (h : WaveHost) (waves : List (List PendingToolCall)) (w : World) (k : Text)
    → Held w.ws.tool_msgs k
    → Held (execute_waves h waves w).ws.tool_msgs k
unfolding execute_waves
waves-Held h [] w k held = held
waves-Held h (wave ∷ waves) w k held =
    let here = wave-Held h wave w k held in
    let rest = waves-Held h waves (execute_wave h wave w) k here in
    if_both (λ (x : World). Held x.ws.tool_msgs k) (is_stopped (execute_wave h wave w).ws)
      (λ _. here) (λ _. rest)

waves-HeldAll :
    (h : WaveHost) (waves : List (List PendingToolCall)) (w : World)
    → Arranges h.arrange
    → Calm (execute_waves h waves w).ws
    → All (HeldAll (execute_waves h waves w)) waves
unfolding execute_waves
waves-HeldAll h [] w arranges calm = tt
waves-HeldAll h (wave ∷ waves) w arranges calm =
    if_both (λ (x : World). Calm x.ws → All (HeldAll x) (wave ∷ waves))
      (is_stopped (execute_wave h wave w).ws)
      (λ stop calm. absurd (true≢false (sym stop ∙ Calm-running (execute_wave h wave w).ws calm)))
      (λ go calm. (
        λ k hit.
            waves-Held h waves (execute_wave h wave w) k
              (wave-HeldAll h wave w arranges (running-Calm (execute_wave h wave w).ws go) k hit),
        waves-HeldAll h waves (execute_wave h wave w) arranges calm,
      ))
      calm

flatten-HeldAll :
    (w : World) (waves : List (List PendingToolCall))
    → All (HeldAll w) waves
    → HeldAll w (flatten waves)
unfolding flatten
flatten-HeldAll w [] held = λ k hit. absurd (true≢false (sym hit))
flatten-HeldAll w (wave ∷ waves) (here, rest) = λ k hit.
    elim (append_key wave (flatten waves) k hit) [
      | inl first ↦ here k first
      | inr later ↦ flatten-HeldAll w waves rest k later
    ]
  where
    append_key :
        (xs ys : List PendingToolCall) (k : Text)
        → has_key (ids_of (xs ++ ys)) k ≡ true
        → (has_key (ids_of xs) k ≡ true) ⊎ (has_key (ids_of ys) k ≡ true)
    append_key [] ys k hit = inr hit
    append_key (x ∷ xs) ys k hit = elim (Bool-cases (same x.id k)) [
      | inl this ↦ inl (ap (λ b. b || has_key (ids_of xs) k) this)
      | inr other ↦
          elim (append_key xs ys k
            (ap (λ b. b || has_key (ids_of (xs ++ ys)) k) (sym other) ∙ hit)) [
              | inl first ↦ inl (or_true (same x.id k) (has_key (ids_of xs) k) first)
              | inr later ↦ inr later
            ]
    ]

or_swap : (p q r : Bool) → (p || (q || r)) ≡ (q || (p || r))
or_swap true true r = refl
or_swap true false r = refl
or_swap false true r = refl
or_swap false false r = refl

has_key-Perm :
    {xs ys : List PendingToolCall} (k : Text)
    → Permᴰ xs ys
    → has_key (ids_of xs) k ≡ has_key (ids_of ys) k
has_key-Perm k Permᴰ.nil = refl
has_key-Perm k (Permᴰ.cons {a} {b} {l₁} {l₂} e p) =
    ap (λ (c : PendingToolCall). same c.id k || has_key (ids_of l₁) k) e
    ∙ ap (λ x. same b.id k || x) (has_key-Perm k p)
has_key-Perm k (Permᴰ.swap {a} {b} {a'} {b'} {l} e e') =
    or_swap (same a.id k) (same b.id k) (has_key (ids_of l) k)
    ∙ ap (λ (c : PendingToolCall). same c.id k || (same a.id k || has_key (ids_of l) k)) e'
    ∙ ap (λ (c : PendingToolCall). same a'.id k || (same c.id k || has_key (ids_of l) k)) e
has_key-Perm k (Permᴰ.trans p q) = has_key-Perm k p ∙ has_key-Perm k q

-- If the scheduled calls run in waves, each wave in any order, and the turn ends with no fatal
-- error and nothing parked, then every scheduled call has a tool message under its ID: the calls
-- that ran, those whose references could not be substituted, and those that repeat another one.
pub execute_tool_waves-Held :
    (h : WaveHost) (scheduled : List PendingToolCall) (w : World)
    → Arranges h.arrange
    → Calm (execute_tool_waves h scheduled w).ws
    → (id : Text) → has_key (ids_of scheduled) id ≡ true
    → Held (execute_tool_waves h scheduled w).ws.tool_msgs id
unfolding execute_tool_waves
execute_tool_waves-Held h scheduled w arranges calm =
    by_schedule (schedule_tool_calls scheduled) refl calm
  where
    ran : Result ScheduleError (List (List PendingToolCall)) → World
    ran r = elim r as (λ _. World) [
      | err e ↦ execute_waves h (scheduled ∷ []) (emit (thought scheduler_fallback) w)
      | ok waves ↦ execute_waves h waves w
    ]

    by_schedule :
        (r : Result ScheduleError (List (List PendingToolCall)))
        → schedule_tool_calls scheduled ≡ r
        → Calm (ran r).ws
        → HeldAll (ran r) scheduled
    by_schedule (err e) q calm =
        (waves-HeldAll h (scheduled ∷ []) (emit (thought scheduler_fallback) w) arranges calm).0
    by_schedule (ok waves) q calm = λ k hit.
        flatten-HeldAll (execute_waves h waves w) waves (waves-HeldAll h waves w arranges calm) k (
          ∥∥₁_elim (schedule-Ordered scheduled waves q).1 (Bool-set _ true)
            (λ p. has_key-Perm k p ∙ hit))
