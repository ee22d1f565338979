-- ===== src/Execution/Effects.antt =====
-- What one tool call does to the wave: it answers the call, parks it, or stops the wave.
use gopheragent.Base.{
  ◌≡◌, refl, subst, ◌≢◌, inl, inr, Bool, true, false, not, same, [], ◌∷◌, ◌++◌, none, some, Text,
  arith, put, Option-cases, if_both, option_both,
}
use gopheragent.History.{Message, role_tool}
use gopheragent.Permission.Rules.{Decision}
use gopheragent.AntiLoop.{Verdict, quiet, warn_args, warn_result, kill_args, kill_result}
use gopheragent.Scheduler.{PendingToolCall}
use gopheragent.Execution.State.{WaveState, record_tool_msg, mark_pending, set_fatal}
use gopheragent.Execution.Host.{
  ToolDescriptor, ToolOutcome, HitlOutcome, hitl_approved, hitl_denied, hitl_timed_out,
  hitl_unconfigured, hitl_deferred, hitl_denied_event, human_approved, thought, Refusal, not_found,
  policy_denied, plan_blocked, plan_denied, user_denied, timed_out, unconfigured, Host, World, emit,
}
use gopheragent.Execution.Call.{
  exit_plan_mode, refuse, run_plan_mode_gate, run_hitl_gate, resolve_approval, permission_of,
  is_gated, rewrite, apply_degradation, conclude, cache_lookup,
}
use gopheragent.Execution.Dispatch.{
  finish, run_tool, proceed, after_approval, note_bypass, is_deny, announce, govern,
  execute_tool_call,
}

-- A reply is stored under the ID of the call and names it; or the call joins the pending ones; or
-- there is a fatal error. Nothing else of the wave changes.
pub data Effect (tc : PendingToolCall) (before after : WaveState) : Type 0 where
  answered :
      (m : Message)
      → m.role ≡ role_tool
      → m.tool_call_id ≡ tc.id
      → after.tool_msgs ≡ put tc.id m before.tool_msgs
      → after.pending ≡ before.pending
      → after.fatal_err ≡ before.fatal_err
      → Effect tc before after
  deferred :
      after.tool_msgs ≡ before.tool_msgs
      → after.pending ≡ before.pending ++ tc ∷ []
      → after.fatal_err ≡ before.fatal_err
      → Effect tc before after
  aborted :
      (reason : Verdict)
      → after.tool_msgs ≡ before.tool_msgs
      → after.pending ≡ before.pending
      → after.fatal_err ≡ some reason
      → Effect tc before after

record_tool_msg-Effect :
    (tc : PendingToolCall) (m : Message) (b : Bool) (ws : WaveState)
    → m.role ≡ role_tool
    → m.tool_call_id ≡ tc.id
    → Effect tc ws (record_tool_msg tc.id m b ws)
unfolding record_tool_msg
record_tool_msg-Effect tc m true ws r i = answered m r i refl refl refl
record_tool_msg-Effect tc m false ws r i = answered m r i refl refl refl

set_fatal-Effect :
    (tc : PendingToolCall) (v : Verdict) (ws : WaveState) → Effect tc ws (set_fatal v ws)
unfolding set_fatal
set_fatal-Effect tc v ws = elim (Option-cases ws.fatal_err) [
  | inl e ↦ rw e (aborted v refl refl refl)
  | inr (old, e) ↦ rw e (aborted old refl refl refl)
]

refuse-Effect :
    (h : Host) (why : Refusal) (tc : PendingToolCall) (w : World)
    → Effect tc w.ws (refuse h why tc w).ws
refuse-Effect h why tc w = record_tool_msg-Effect tc _ false w.ws refl refl

conclude-Effect :
    (h : Host) (v : Verdict) (tc : PendingToolCall) (m : Message) (w : World)
    → m.role ≡ role_tool
    → m.tool_call_id ≡ tc.id
    → Effect tc w.ws (conclude h v tc m w).ws
unfolding conclude
conclude-Effect h quiet tc m w r i = record_tool_msg-Effect tc m _ w.ws r i
conclude-Effect h (kill_args tool) tc m w r i = set_fatal-Effect tc (kill_args tool) w.ws
conclude-Effect h (kill_result tool) tc m w r i = set_fatal-Effect tc (kill_result tool) w.ws
conclude-Effect h (warn_args tool n) tc m w r i = record_tool_msg-Effect tc _ _ w.ws r i
conclude-Effect h (warn_result tool n) tc m w r i = record_tool_msg-Effect tc _ _ w.ws r i

pub ws-apply_degradation :
    (tc : PendingToolCall) (o : ToolOutcome) (w : World) → (apply_degradation tc o w).0.ws ≡ w.ws
unfolding apply_degradation
ws-apply_degradation tc o w = ground arith

finish-Effect :
    (h : Host) (desc : ToolDescriptor) (call_id : Text) (tc : PendingToolCall) (o : ToolOutcome)
    (w : World)
    → Effect tc w.ws (finish h desc call_id tc o w).ws
unfolding finish
finish-Effect h desc call_id tc o w =
    subst (λ s. Effect tc s (finish h desc call_id tc o w).ws)
      (ground (arith, ws-apply_degradation tc o w)) (conclude-Effect h _ tc _ _ refl refl)

run_tool-Effect :
    (h : Host) (desc : ToolDescriptor) (call_id : Text) (tc : PendingToolCall) (w : World)
    → Effect tc w.ws (run_tool h desc call_id tc w).ws
unfolding run_tool
run_tool-Effect h desc call_id tc w =
    option_both (λ (v : World). Effect tc w.ws v.ws) (h.speculated tc.id)
      (λ e. finish-Effect h desc call_id tc (rewrite h call_id tc (h.execute tc)) _)
      (λ o e. finish-Effect h desc call_id tc (rewrite h call_id tc o) _)

proceed-Effect :
    (h : Host) (desc : ToolDescriptor) (tc : PendingToolCall) (w : World)
    → Effect tc w.ws (proceed h desc tc w).ws
unfolding proceed
proceed-Effect h desc tc w =
    option_both (λ (v : World). Effect tc w.ws v.ws) (cache_lookup h desc tc (announce h tc w))
      (λ e. run_tool-Effect h desc (h.new_call_id tc) tc (announce h tc w))
      (λ hit e. record_tool_msg-Effect tc _ true w.ws refl refl)

-- What the callback leaves: the wave as it was, and an answer.
run_hitl_gate-same :
    (h : Host) (tc : PendingToolCall) (w : World)
    → ((run_hitl_gate h tc w).0.ws ≡ w.ws) × ((run_hitl_gate h tc w).1 ≢ hitl_deferred)
unfolding run_hitl_gate
run_hitl_gate-same h tc w = ground arith

after_approval-Effect :
    (h : Host) (desc : ToolDescriptor) (tc : PendingToolCall) (w : World) (o : HitlOutcome)
    → o ≢ hitl_deferred
    → Effect tc w.ws (after_approval h desc tc (w, o)).ws
unfolding after_approval
after_approval-Effect h desc tc w hitl_approved n =
    proceed-Effect h desc tc (emit (thought human_approved) w)
after_approval-Effect h desc tc w hitl_deferred n = absurd (n refl)
after_approval-Effect h desc tc w hitl_denied n = refuse-Effect h user_denied tc w
after_approval-Effect h desc tc w hitl_timed_out n = refuse-Effect h timed_out tc w
after_approval-Effect h desc tc w hitl_unconfigured n = refuse-Effect h unconfigured tc w

asked-Effect :
    (h : Host) (desc : ToolDescriptor) (tc : PendingToolCall) (w : World)
    → Effect tc w.ws (after_approval h desc tc (run_hitl_gate h tc w)).ws
asked-Effect h desc tc w =
    let (same_wave, n) = run_hitl_gate-same h tc w in
    subst (λ s. Effect tc s (after_approval h desc tc (run_hitl_gate h tc w)).ws) same_wave
      (after_approval-Effect h desc tc (run_hitl_gate h tc w).0 (run_hitl_gate h tc w).1 n)

approval-Effect :
    (h : Host) (desc : ToolDescriptor) (tc : PendingToolCall) (w : World)
    → Effect tc w.ws (after_approval h desc tc (resolve_approval h tc w)).ws
unfolding resolve_approval after_approval mark_pending
approval-Effect h desc tc w =
    let P = λ (r : World × HitlOutcome). Effect tc w.ws (after_approval h desc tc r).ws in
    option_both P (h.decisions tc.id)
      (λ e.
        if_both P h.defer_approvals (λ d. deferred refl refl refl) (λ d. asked-Effect h desc tc w))
      (λ approved e.
        if_both P approved (λ _. after_approval-Effect h desc tc w hitl_approved (λ q. cc))
          (λ _.
            after_approval-Effect h desc tc (emit (hitl_denied_event tc) w) hitl_denied (λ q. cc)))

run_plan_mode_gate-Effect :
    (h : Host) (tc : PendingToolCall) (w : World) → Effect tc w.ws (run_plan_mode_gate h tc w).ws
unfolding run_plan_mode_gate
run_plan_mode_gate-Effect h tc w =
    let P = λ (v : World). Effect tc w.ws v.ws in
    if_both P (not (same tc.name exit_plan_mode)) (λ _. refuse-Effect h plan_blocked tc w)
      (λ _.
        option_both P h.confirm_plan (λ e. refuse-Effect h plan_denied tc w)
          (λ approve e.
            if_both P (approve tc.args_json) (λ _. record_tool_msg-Effect tc _ true w.ws refl refl)
              (λ _. refuse-Effect h plan_denied tc w)))

govern-Effect :
    (h : Host) (desc : ToolDescriptor) (d : Decision) (tc : PendingToolCall) (w : World)
    → Effect tc w.ws (govern h desc d tc w).ws
unfolding govern
govern-Effect h desc d tc w =
    let noted = note_bypass desc d w in
    let P = λ (v : World). Effect tc noted.ws v.ws in
    subst (λ s. Effect tc s (govern h desc d tc w).ws) (ws-note_bypass d)
      (if_both P (is_deny d) (λ _. refuse-Effect h policy_denied tc noted)
        (λ _.
          if_both P (is_gated desc d) (λ _. approval-Effect h desc tc noted)
            (λ _. proceed-Effect h desc tc noted)))
  where
    ws-note_bypass : (d : Decision) → (note_bypass desc d w).ws ≡ w.ws
    ws-note_bypass d = ground arith

-- If the wave has no fatal error, then `executeToolCall` gives the call exactly one of three
-- outcomes: a tool message that names it is stored under its ID, it is parked for Resume, or the
-- wave gets a fatal error; and the replies, the parked calls and the error of the wave are
-- otherwise left as they were.
pub execute-Effect :
    (h : Host) (tc : PendingToolCall) (w : World)
    → w.ws.fatal_err ≡ none
    → Effect tc w.ws (execute_tool_call h tc w).ws
unfolding execute_tool_call
execute-Effect h tc w calm =
    let P = λ (v : World). Effect tc w.ws v.ws in
    option_both P w.ws.fatal_err
      (λ _.
        if_both P w.plan_mode (λ _. run_plan_mode_gate-Effect h tc w)
          (λ _.
            option_both P (h.lookup tc.name) (λ e. refuse-Effect h not_found tc w)
              (λ desc e. govern-Effect h desc (permission_of h tc) tc w)))
      (λ v e. absurd (cc))
