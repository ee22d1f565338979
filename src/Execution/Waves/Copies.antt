-- ===== src/Execution/Waves/Copies.antt =====
-- The dispatched calls of a wave, and the replies that its repeated calls share.
use gopheragent.Base.{
  ◌≡◌, refl, sym, ap, subst, ◌∙◌, inl, inr, Bool, true, false, List, [], ◌∷◌, Option, none, some,
  option_both, All, Text, find, In, All-map,
}
use mathlib.Core.Bool.{true≢false}
use gopheragent.History.{Message}
use gopheragent.Scheduler.{PendingToolCall, has_key, ids_of}
use gopheragent.Execution.State.{WaveState}
use gopheragent.Execution.Host.{World}
use gopheragent.Execution.Turn.{run_calls}
use gopheragent.Execution.Replies.{Held, Calm, run_calls-Held, run_calls-Calm}
use gopheragent.Execution.Waves.{
  WaveHost, GatedDuplicate, has_result, copy_result, copy_duplicate_results, dispatch_wave,
}
use gopheragent.Execution.Waves.Substituted.{
  SameCourse, record_tool_msg-Course, record_tool_msg-Held, record_tool_msg-Held_self,
}
use gopheragent.Execution.Waves.Splits.{Covers, Led}

copy_result-Course : (d : GatedDuplicate) (ws : WaveState) → SameCourse (copy_result d ws) ws
copy_result-Course d ws =
    option_both (λ (x : WaveState). SameCourse x ws) (find d.leader_id ws.tool_msgs)
      (λ _. (refl, refl)) (λ m _. record_tool_msg-Course d.call.id _ (has_result d.leader_id ws) ws)

copy_result-Held :
    (d : GatedDuplicate) (ws : WaveState) (k : Text)
    → Held ws.tool_msgs k
    → Held (copy_result d ws).tool_msgs k
copy_result-Held d ws k held =
    option_both (λ (x : WaveState). Held x.tool_msgs k) (find d.leader_id ws.tool_msgs) (λ _. held)
      (λ m _. record_tool_msg-Held d.call.id _ (has_result d.leader_id ws) ws k held)

copy_result-Held_self :
    (d : GatedDuplicate) (ws : WaveState)
    → Held ws.tool_msgs d.leader_id
    → Held (copy_result d ws).tool_msgs d.call.id
copy_result-Held_self d ws (m, q) =
    option_both (λ (x : WaveState). Held x.tool_msgs d.call.id) (find d.leader_id ws.tool_msgs)
      (λ none_left. absurd (true≢false (ap held_at (sym q ∙ none_left))))
      (λ m' _. record_tool_msg-Held_self d.call.id _ (has_result d.leader_id ws) ws)
  where
    held_at : Option Message → Bool
    held_at o = elim o [ none ↦ false | some _ ↦ true ]

copy-Course :
    (dups : List GatedDuplicate) (ws : WaveState) → SameCourse (copy_duplicate_results dups ws) ws
unfolding copy_duplicate_results
copy-Course [] ws = (refl, refl)
copy-Course (d ∷ dups) ws =
    let (fatal, pending) = copy-Course dups (copy_result d ws) in
    let (fatal', pending') = copy_result-Course d ws in (fatal ∙ fatal', pending ∙ pending')

copy-Held :
    (dups : List GatedDuplicate) (ws : WaveState) (k : Text)
    → Held ws.tool_msgs k
    → Held (copy_duplicate_results dups ws).tool_msgs k
unfolding copy_duplicate_results
copy-Held [] ws k held = held
copy-Held (d ∷ dups) ws k held = copy-Held dups (copy_result d ws) k (copy_result-Held d ws k held)

copy-Held_self :
    (dups : List GatedDuplicate) (ws : WaveState) (d : GatedDuplicate)
    → All (λ (x : GatedDuplicate). Held ws.tool_msgs x.leader_id) dups
    → In d dups
    → Held (copy_duplicate_results dups ws).tool_msgs d.call.id
unfolding copy_duplicate_results
copy-Held_self [] ws d leaders h = absurd h
copy-Held_self (x ∷ dups) ws d (here, leaders) (inl e) =
    copy-Held dups (copy_result x ws) d.call.id (
      subst (λ (y : GatedDuplicate). Held (copy_result x ws).tool_msgs y.call.id) e
        (copy_result-Held_self x ws here))
copy-Held_self (x ∷ dups) ws d (here, leaders) (inr later) =
    copy-Held_self dups (copy_result x ws) d
      (All-map dups (λ y held. copy_result-Held x ws y.leader_id held) leaders) later

-- Every call of a list is among those that took effect.
abbrev pub Arranges : (List PendingToolCall → List PendingToolCall) → Type 0
Arranges arrange =
    (calls : List PendingToolCall) (id : Text)
    → has_key (ids_of calls) id ≡ true
    → has_key (ids_of (arrange calls)) id ≡ true

-- What is held behind a list of calls.
abbrev pub HeldAll : World → List PendingToolCall → Type 0
HeldAll w calls = (k : Text) → has_key (ids_of calls) k ≡ true → Held w.ws.tool_msgs k

pub dispatch-Held :
    (h : WaveHost) (r : List PendingToolCall × List GatedDuplicate) (w : World) (k : Text)
    → Held w.ws.tool_msgs k
    → Held (dispatch_wave h r w).ws.tool_msgs k
dispatch-Held h (dispatch, dups) w k held =
    copy-Held dups (run_calls h.host (h.arrange dispatch) w).ws k
      (run_calls-Held h.host (h.arrange dispatch) w k held)

pub dispatch-HeldAll :
    (h : WaveHost) (wave : List PendingToolCall) (r : List PendingToolCall × List GatedDuplicate)
    (w : World)
    → Arranges h.arrange
    → Covers wave r
    → ((P : Text → Type 0) → Led P r)
    → Calm (dispatch_wave h r w).ws
    → HeldAll (dispatch_wave h r w) wave
dispatch-HeldAll h wave (dispatch, dups) w arranges covers led (fatal, pending) k hit =
    elim (covers k hit) [
      | inl out ↦ copy-Held dups ran.ws k (all_ran k out)
      | inr (d, (inside, e)) ↦
          subst (λ i. Held (copy_duplicate_results dups ran.ws).tool_msgs i) e
            (copy-Held_self dups ran.ws d (led (λ i. Held ran.ws.tool_msgs i) all_ran) inside)
    ]
  where
    ran : World
    ran = run_calls h.host (h.arrange dispatch) w

    all_ran : (i : Text) → has_key (ids_of dispatch) i ≡ true → Held ran.ws.tool_msgs i
    all_ran i out =
        let (same_fatal, same_pending) =
          copy-Course dups (run_calls h.host (h.arrange dispatch) w).ws in
        (run_calls-Calm h.host (h.arrange dispatch) w
            (sym same_fatal ∙ fatal, sym same_pending ∙ pending)).1
          i (arranges dispatch i out)
