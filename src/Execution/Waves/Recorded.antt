-- ===== src/Execution/Waves/Recorded.antt =====
-- The transcript of a turn whose calls ran in waves.
use gopheragent.Base.{
  ℕ, ◌≡◌, refl, sym, ap, subst, ◌||◌, same, same_refl, ◌≢◌, Bool, true, false, List, [], ◌∷◌, Text,
  Result, ok, err, All, All-map, find, if_both, option_both,
}
use gopheragent.History.{Message, role_tool}
use gopheragent.Request.Dangling.Paired.{Paired}
use gopheragent.Scheduler.{PendingToolCall, has_key, ids_of, schedule_tool_calls, ScheduleError}
use gopheragent.Execution.State.{
  WaveState, new_wave_state, record_tool_msg, unfinished, error_reply,
  append_assistant_tool_call_msg,
}
use gopheragent.Execution.Host.{World, emit, thought, substitution_failed, scheduler_fallback}
use gopheragent.Execution.Turn.{
  run_calls, apply_tool_call_budget, approval_pending, record_tool_turn,
}
use gopheragent.Execution.Replies.{Filed, Held, put-Filed, run_calls-Filed}
use gopheragent.Execution.Transcript.{budget-All}
use gopheragent.Execution.Balance.{record_tool_turn-Paired}
use gopheragent.Execution.Waves.{
  WaveHost, GatedDuplicate, substitute_wave_args, split_gated_duplicates, has_result, copy_result,
  copy_duplicate_results, execute_wave, is_stopped, execute_waves, execute_tool_waves,
}
use gopheragent.Execution.Waves.Splits.{or_true}
use gopheragent.Execution.Waves.Copies.{Arranges}
use gopheragent.Execution.Waves.Progress.{execute_tool_waves-Held}

record_tool_msg-Filed :
    (id : Text) (m : Message) (b : Bool) (ws : WaveState)
    → m.role ≡ role_tool
    → m.tool_call_id ≡ id
    → Filed ws.tool_msgs
    → Filed (record_tool_msg id m b ws).tool_msgs
unfolding record_tool_msg
record_tool_msg-Filed id m true ws r i filed = put-Filed id m ws.tool_msgs r i filed
record_tool_msg-Filed id m false ws r i filed = put-Filed id m ws.tool_msgs r i filed

substitute-Filed :
    (h : WaveHost) (wave : List PendingToolCall) (w : World)
    → Filed w.ws.tool_msgs
    → Filed (substitute_wave_args h wave w).1.ws.tool_msgs
unfolding substitute_wave_args
substitute-Filed h [] w filed = filed
substitute-Filed h (tc ∷ wave) w filed =
    by_args (h.substitute tc.args_json w.ws.results_by_id) (substitute-Filed h wave w filed) (λ e.
      substitute-Filed h wave _ (
        record_tool_msg-Filed tc.id (error_reply tc (h.failed_text tc e)) false w.ws refl refl
          filed))
  where
    by_args :
        (r : Result Text Text)
        → Filed (substitute_wave_args h wave w).1.ws.tool_msgs
        → ((e : Text)
            → Filed
                (substitute_wave_args h wave (
                  emit (thought substitution_failed) (record w {
                    ws = record_tool_msg tc.id (error_reply tc (h.failed_text tc e)) false w.ws;
                  }))).1.ws.tool_msgs)
        → Filed
            (elim r as (λ _. List PendingToolCall × World) [
              | err e ↦ substitute_wave_args h wave (
                  emit (thought substitution_failed) (record w {
                    ws = record_tool_msg tc.id (error_reply tc (h.failed_text tc e)) false w.ws;
                  }))
              | ok args ↦
                  let (out, w') = substitute_wave_args h wave w in
                  (record tc { args_json = args } ∷ out, w')
            ]).1.ws.tool_msgs
    by_args (ok args) good bad = good
    by_args (err e) good bad = bad e

copy-Filed :
    (dups : List GatedDuplicate) (ws : WaveState)
    → Filed ws.tool_msgs
    → Filed (copy_duplicate_results dups ws).tool_msgs
unfolding copy_duplicate_results
copy-Filed [] ws filed = filed
copy-Filed (d ∷ dups) ws filed = copy-Filed dups (copy_result d ws) (
    option_both (λ (x : WaveState). Filed x.tool_msgs) (find d.leader_id ws.tool_msgs) (λ _. filed)
      (λ m q.
        record_tool_msg-Filed d.call.id (record m { tool_call_id = d.call.id })
          (has_result d.leader_id ws) ws (filed d.leader_id m q).0 refl filed))

wave-Filed :
    (h : WaveHost) (wave : List PendingToolCall) (w : World)
    → Filed w.ws.tool_msgs
    → Filed (execute_wave h wave w).ws.tool_msgs
unfolding execute_wave
wave-Filed h wave w filed =
    let r = substitute_wave_args h (unfinished w.ws wave) w in
    let split = split_gated_duplicates h.host r.0 in
    copy-Filed split.1 (run_calls h.host (h.arrange split.0) r.1).ws (
      run_calls-Filed h.host (h.arrange split.0) r.1
        (substitute-Filed h (unfinished w.ws wave) w filed))

waves-Filed :
    (h : WaveHost) (waves : List (List PendingToolCall)) (w : World)
    → Filed w.ws.tool_msgs
    → Filed (execute_waves h waves w).ws.tool_msgs
unfolding execute_waves
waves-Filed h [] w filed = filed
waves-Filed h (wave ∷ waves) w filed =
    let here = wave-Filed h wave w filed in
    let rest = waves-Filed h waves (execute_wave h wave w) here in
    if_both (λ (x : World). Filed x.ws.tool_msgs) (is_stopped (execute_wave h wave w).ws)
      (λ _. here) (λ _. rest)

execute_tool_waves-Filed :
    (h : WaveHost) (scheduled : List PendingToolCall) (w : World)
    → Filed w.ws.tool_msgs
    → Filed (execute_tool_waves h scheduled w).ws.tool_msgs
unfolding execute_tool_waves
execute_tool_waves-Filed h scheduled w filed = by_schedule (schedule_tool_calls scheduled)
  where
    by_schedule :
        (r : Result ScheduleError (List (List PendingToolCall)))
        → Filed
            (elim r as (λ _. World) [
              | err e ↦ execute_waves h (scheduled ∷ []) (emit (thought scheduler_fallback) w)
              | ok waves ↦ execute_waves h waves w
            ]).ws.tool_msgs
    by_schedule (err e) = waves-Filed h (scheduled ∷ []) (emit (thought scheduler_fallback) w) filed
    by_schedule (ok waves) = waves-Filed h waves w filed

has_key-All :
    (calls : List PendingToolCall)
    → All (λ (c : PendingToolCall). has_key (ids_of calls) c.id ≡ true) calls
has_key-All [] = tt
has_key-All (tc ∷ calls) = (
  ap (λ b. b || has_key (ids_of calls) tc.id) (same_refl tc.id),
  All-map calls (λ c h. or_true (same tc.id c.id) (has_key (ids_of calls) c.id) h)
      (has_key-All calls),
)

-- If a transcript replies to every call in time and the calls of a turn have IDs, then however the
-- budget cuts them, the scheduler orders them, references are substituted, repeated calls are
-- answered and the goroutines of a wave interleave, the recorded transcript again has a reply to
-- every call, unless the turn ends in a pending approval.
pub waves-Paired :
    (h : WaveHost) (limit : ℕ) (abort_reason dropped_text : Text) (msgs : List Message)
    (content : Text) (calls : List PendingToolCall) (w : World)
    → Arranges h.arrange
    → Paired msgs
    → All (λ (c : PendingToolCall). c.id ≢ []) calls
    → w.ws ≡ new_wave_state
    → ((n : ℕ)
        → (record_tool_turn abort_reason dropped_text
            (append_assistant_tool_call_msg msgs content calls)
            calls
            (apply_tool_call_budget limit calls).1
            (execute_tool_waves h (apply_tool_call_budget limit calls).0 w).ws).1
          ≢ approval_pending n)
    → Paired
        (record_tool_turn abort_reason dropped_text
          (append_assistant_tool_call_msg msgs content calls)
          calls
          (apply_tool_call_budget limit calls).1
          (execute_tool_waves h (apply_tool_call_budget limit calls).0 w).ws).0
waves-Paired h limit abort_reason dropped_text msgs content calls w arranges paired named fresh =
    let scheduled = (apply_tool_call_budget limit calls).0 in
    record_tool_turn-Paired abort_reason dropped_text msgs content calls
      (apply_tool_call_budget limit calls).1 (execute_tool_waves h scheduled w).ws paired named
      (execute_tool_waves-Filed h scheduled w
        (subst (λ (ws : WaveState). Filed ws.tool_msgs) (sym fresh) (λ id m e. absurd cc)))
      (λ calm t keeps dropped.
        let held = execute_tool_waves-Held h scheduled w arranges calm in
        budget-All limit calls (λ c. Held t c.id)
          (All-map scheduled (λ c k. keeps c.id (held c.id k)) (has_key-All scheduled)) dropped)
