-- ===== src/Execution/Balance.antt =====
-- runIteration's tool turn as a whole: budget, assistant message, calls, and recordToolTurn.
use gopheragent.Base.{ℕ, ◌≡◌, sym, subst, ◌≢◌, true, List, [], Text, option_both, All, All-map}
use gopheragent.History.{Message}
use gopheragent.Scheduler.{PendingToolCall, has_key, ids_of}
use gopheragent.Request.Dangling.Paired.{Paired}
use gopheragent.Execution.State.{WaveState, new_wave_state, append_assistant_tool_call_msg}
use gopheragent.Execution.Host.{Host, World}
use gopheragent.Execution.Turn.{
  apply_tool_call_budget, run_calls, TurnEnd, approval_pending, record_tool_turn,
}
use gopheragent.Execution.Replies.{Filed, Held, Calm, run_calls-Filed, run_calls-Calm}
use gopheragent.Execution.Transcript.{
  dropped-Filed, dropped-keeps, dropped-Held, missing-Filed, missing-Held, budget-All,
  answered-Paired, turn_end-Calm,
}

pub record_tool_turn-Paired :
    (abort_reason dropped_text : Text) (msgs : List Message) (content : Text)
    (calls dropped : List PendingToolCall) (ws : WaveState)
    → Paired msgs
    → All (λ (c : PendingToolCall). c.id ≢ []) calls
    → Filed ws.tool_msgs
    → (Calm ws
        → (t : List (Text × Message)) → ((id : Text) → Held ws.tool_msgs id → Held t id)
        → All (λ (c : PendingToolCall). Held t c.id) dropped
        → All (λ (c : PendingToolCall). Held t c.id) calls)
    → ((n : ℕ)
        → (record_tool_turn abort_reason dropped_text
            (append_assistant_tool_call_msg msgs content calls)
            calls
            dropped
            ws).1
          ≢ approval_pending n)
    → Paired
        (record_tool_turn abort_reason dropped_text
          (append_assistant_tool_call_msg msgs content calls)
          calls
          dropped
          ws).0
unfolding record_tool_turn
record_tool_turn-Paired abort_reason dropped_text msgs content calls dropped ws paired named filed
      covered =
    option_both (λ (r : List Message × TurnEnd). ((n : ℕ) → r.1 ≢ approval_pending n) → Paired r.0)
      ws.fatal_err
      (λ calm ended.
        answered-Paired msgs content calls _ paired
          (dropped-Filed dropped_text dropped ws.tool_msgs filed) named
          (covered (calm, turn_end-Calm ws.pending ended) _
            (λ id held. dropped-keeps dropped_text dropped ws.tool_msgs id held)
            (dropped-Held dropped_text dropped ws.tool_msgs)))
      (λ v e ended.
        answered-Paired msgs content calls _ paired
          (missing-Filed abort_reason calls ws.tool_msgs filed) named
          (missing-Held abort_reason calls ws.tool_msgs filed))

-- Take a transcript whose calls are all answered, calls that have IDs, and a fresh wave. If the
-- scheduled calls run in any order, possibly among others, and the turn does not end in a pending
-- approval, then the recorded transcript again has a reply to every call: to the calls that ran,
-- the dropped ones, and those that a loop abort skipped.
turn-Paired :
    (h : Host) (limit : ℕ) (abort_reason dropped_text : Text) (msgs : List Message) (content : Text)
    (calls order : List PendingToolCall) (w : World)
    → Paired msgs
    → All (λ (c : PendingToolCall). c.id ≢ []) calls
    → w.ws ≡ new_wave_state
    → All
        (λ (c : PendingToolCall). has_key (ids_of order) c.id ≡ true)
        (apply_tool_call_budget limit calls).0
    → ((n : ℕ)
        → (record_tool_turn abort_reason dropped_text
            (append_assistant_tool_call_msg msgs content calls)
            calls
            (apply_tool_call_budget limit calls).1
            (run_calls h order w).ws).1
          ≢ approval_pending n)
    → Paired
        (record_tool_turn abort_reason dropped_text
          (append_assistant_tool_call_msg msgs content calls)
          calls
          (apply_tool_call_budget limit calls).1
          (run_calls h order w).ws).0
turn-Paired h limit abort_reason dropped_text msgs content calls order w paired named fresh covers =
    record_tool_turn-Paired abort_reason dropped_text msgs content calls
      (apply_tool_call_budget limit calls).1 (run_calls h order w).ws paired named
      (run_calls-Filed h order w
        (subst (λ (ws : WaveState). Filed ws.tool_msgs) (sym fresh) (λ id m e. absurd cc)))
      (λ calm t keeps dropped.
        let held = (run_calls-Calm h order w calm).1 in
        budget-All limit calls (λ c. Held t c.id)
          (All-map (apply_tool_call_budget limit calls).0 (λ c k. keeps c.id (held c.id k)) covers)
          dropped)
