-- ===== src/Execution/Dispatch.antt =====
-- pkg/agent/loop_execute.go, executeToolCall: the order of the gates, and the run behind them.
use gopheragent.Base.{
  Bool, true, false, not, ◌&&◌, ◌∷◌, ◌++◌, Option, none, some, Text, codes, if◌then◌else◌,
}
use gopheragent.History.{Message, plain_message, role_tool}
use gopheragent.Permission.Rules.{Decision, prompt, allow, deny, confirm}
use gopheragent.AntiLoop.{add_call, detect}
use gopheragent.Scheduler.{PendingToolCall}
use gopheragent.Execution.Host.{
  ToolDescriptor, ToolOutcome, HitlOutcome, hitl_approved, hitl_denied, hitl_timed_out,
  hitl_unconfigured, hitl_deferred, not_found, policy_denied, user_denied, timed_out, unconfigured,
  auto_approved, denied_by_policy, human_approved, cache_hit, reusing_speculative, thought,
  error_event, tool_call_event, content_event, Host, World, emit,
}
use gopheragent.Execution.Call.{
  answer_with, refuse, run_plan_mode_gate, resolve_approval, permission_of, is_gated, cache_key,
  cache_lookup, cache_ok, rewrite, apply_degradation, conclude,
}

abbrev pub is_none {ℓ} : {A : Type ℓ} → Option A → Bool
is_none none = true
is_none (some _) = false

abbrev pub content_of : Host → PendingToolCall → ToolOutcome → Text → Text
content_of h tc o text = elim o.exec_err [ none ↦ text | some e ↦ h.format_tool_error tc e ]

abbrev pub stream_inline : ToolDescriptor → ToolOutcome → Text → World → World
stream_inline desc o content w =
    if is_none o.exec_err && desc.inline_output
    then emit (content_event (codes "\n\n" ++ (content ++ codes "\n\n"))) w
    else w

-- Neither an error nor a degraded result is cached.
abbrev pub remember : Host → ToolDescriptor → PendingToolCall → ToolOutcome → Text → World → World
remember h desc tc o content w =
    if cache_ok h desc && (is_none o.exec_err && is_none o.degraded)
    then record w { cached = (cache_key h tc, content) ∷ w.cached }
    else w

abbrev pub tool_message : ToolDescriptor → Text → PendingToolCall → ToolOutcome → Text → Message
tool_message desc call_id tc o content = record (plain_message role_tool content) {
  tool_call_id = tc.id;
  correlation_id = call_id;
  is_error = not (is_none o.exec_err);
  is_inline_result = is_none o.exec_err && desc.inline_output;
}

-- From the hook's outcome to the reply.
unfoldable pub finish : Host → ToolDescriptor → Text → PendingToolCall → ToolOutcome → World → World
unfolding conclude apply_degradation detect add_call
finish h desc call_id tc o w =
    let (filed, text) = apply_degradation tc o w in
    let content = content_of h tc o text in
    let stored = remember h desc tc o content (stream_inline desc o content filed) in
    let tracker = add_call stored.tracker tc.name tc.args_json content in
    conclude h (detect tracker) tc (tool_message desc call_id tc o content)
      (record stored { tracker = tracker })

-- A speculative run is awaited; else the tool is executed now.
unfoldable pub run_tool : Host → ToolDescriptor → Text → PendingToolCall → World → World
unfolding finish rewrite
run_tool h desc call_id tc w = elim (h.speculated tc.id) [
  | some o ↦
      finish h desc call_id tc (rewrite h call_id tc o) (emit (thought reusing_speculative) w)
  | none ↦
      finish h desc call_id tc (rewrite h call_id tc (h.execute tc)) (record w { ran = tc ∷ w.ran })
]

abbrev pub announce : Host → PendingToolCall → World → World
announce h tc = emit (tool_call_event (h.new_call_id tc) tc (not (is_none (h.speculated tc.id))))

-- Behind the gates: the announcement, the cache, the run.
unfoldable pub proceed : Host → ToolDescriptor → PendingToolCall → World → World
unfolding run_tool
proceed h desc tc w =
    let call_id = h.new_call_id tc in
    let announced = announce h tc w in
    elim (cache_lookup h desc tc announced) [
      | some hit ↦
          answer_with tc
            (record (plain_message role_tool hit) {
              tool_call_id = tc.id;
              correlation_id = call_id;
            })
            true (emit (thought cache_hit) announced)
      | none ↦ run_tool h desc call_id tc announced
    ]

-- The reply or the run that follows the outcome of the approval.
unfoldable pub after_approval :
    Host → ToolDescriptor → PendingToolCall → World × HitlOutcome → World
unfolding proceed
after_approval h desc tc (w, hitl_approved) = proceed h desc tc (emit (thought human_approved) w)
after_approval h desc tc (w, hitl_deferred) = w
after_approval h desc tc (w, hitl_denied) = refuse h user_denied tc w
after_approval h desc tc (w, hitl_timed_out) = refuse h timed_out tc w
after_approval h desc tc (w, hitl_unconfigured) = refuse h unconfigured tc w

abbrev pub note_bypass : ToolDescriptor → Decision → World → World
note_bypass desc allow w = if desc.requires_confirmation then emit (thought auto_approved) w else w
note_bypass desc prompt w = w
note_bypass desc deny w = w
note_bypass desc confirm w = w

abbrev pub is_deny : Decision → Bool
is_deny deny = true
is_deny prompt = false
is_deny allow = false
is_deny confirm = false

-- A registered tool under the decision of the policy.
unfoldable pub govern : Host → ToolDescriptor → Decision → PendingToolCall → World → World
unfolding after_approval proceed resolve_approval is_gated
govern h desc decision tc w =
    let noted = note_bypass desc decision w in
    if is_deny decision
    then refuse h policy_denied tc (emit (thought denied_by_policy) noted)
    else if is_gated desc decision
    then after_approval h desc tc (resolve_approval h tc noted)
    else proceed h desc tc noted

unfoldable pub execute_tool_call : Host → PendingToolCall → World → World
unfolding run_plan_mode_gate govern permission_of
execute_tool_call h tc w = elim w.ws.fatal_err [
  | some _ ↦ w
  | none ↦ if w.plan_mode then run_plan_mode_gate h tc w else elim (h.lookup tc.name) [
    | none ↦ refuse h not_found tc (emit (error_event not_found) w)
    | some desc ↦ govern h desc (permission_of h tc) tc w
  ]
]
