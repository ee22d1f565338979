-- ===== src/Execution/Call.antt =====
-- pkg/agent/loop_execute.go, executeToolCall, with runPlanModeGate, resolveApproval and
-- runHITLGate: one tool call from its gates to its reply. A call is one step on the world, in the
-- order of the code's statements.
use gopheragent.Base.{
  Bool, true, false, not, ◌&&◌, ◌∷◌, ◌++◌, Option, none, some, Text, codes, same, if◌then◌else◌, ok,
  err,
}
use gopheragent.History.{Message, plain_message, role_tool}
use gopheragent.Permission.Rules.{Decision, prompt, allow, deny, confirm}
use gopheragent.AntiLoop.{Verdict, quiet, warn_args, warn_result, kill_args, kill_result}
use gopheragent.Scheduler.{PendingToolCall}
use gopheragent.Execution.State.{record_tool_msg, mark_pending, set_fatal, error_reply}
use gopheragent.Execution.Host.{
  ToolDescriptor, ToolOutcome, HitlOutcome, hitl_approved, hitl_denied, hitl_timed_out,
  hitl_unconfigured, hitl_deferred, Refusal, plan_blocked, plan_denied, needs_confirmation,
  plan_proposed, plan_accepted, loop_warning, thought, action_required, hitl_denied_event,
  hitl_timed_out_event, Host, World, emit, degradation_note,
}

abbrev pub exit_plan_mode : Text
exit_plan_mode = codes "exit_plan_mode"

abbrev pub answer_with : PendingToolCall → Message → Bool → World → World
answer_with tc m is_result w = record w { ws = record_tool_msg tc.id m is_result w.ws }

abbrev pub refuse : Host → Refusal → PendingToolCall → World → World
refuse h why tc = answer_with tc (error_reply tc (h.wording why tc)) false

-- In plan mode every call is handled here; only an approved plan leaves the mode.
unfoldable pub run_plan_mode_gate : Host → PendingToolCall → World → World
run_plan_mode_gate h tc w =
    if not (same tc.name exit_plan_mode)
    then refuse h plan_blocked tc w
    else (let proposed = emit (thought plan_proposed) w in
        elim h.confirm_plan [
          | none ↦ refuse h plan_denied tc (emit (action_required tc) proposed)
          | some approve ↦
              if approve tc.args_json
              then answer_with tc
                  (record (plain_message role_tool h.plan_approved_text) { tool_call_id = tc.id })
                  true (emit (thought plan_accepted) (record proposed { plan_mode = false }))
              else refuse h plan_denied tc proposed
        ])

-- The outcome of the callback. A window that closes counts only while the run goes on.
unfoldable pub run_hitl_gate : Host → PendingToolCall → World → World × HitlOutcome
run_hitl_gate h tc w =
    let asked = emit (thought needs_confirmation) w in
    elim h.confirm_hitl [
      | none ↦ (emit (action_required tc) asked, hitl_unconfigured)
      | some ask ↦
          let a = ask tc.name tc.args_json in
          if a.approved
          then (asked, hitl_approved)
          else if h.has_timeout && (not a.run_cancelled && a.window_closed)
          then (emit (hitl_timed_out_event tc) asked, hitl_timed_out)
          else (emit (hitl_denied_event tc) asked, hitl_denied)
    ]

-- A decision handed to Resume wins; else the call is parked or the callback is asked.
unfoldable pub resolve_approval : Host → PendingToolCall → World → World × HitlOutcome
unfolding run_hitl_gate
resolve_approval h tc w = elim (h.decisions tc.id) [
  | some approved ↦
      if approved then (w, hitl_approved) else (emit (hitl_denied_event tc) w, hitl_denied)
  | none ↦
      if h.defer_approvals
      then (emit (action_required tc) (record w { ws = mark_pending tc w.ws }), hitl_deferred)
      else run_hitl_gate h tc w
]

unfoldable pub permission_of : Host → PendingToolCall → Decision
permission_of h tc = elim h.permissions [ none ↦ prompt | some rules ↦ rules tc.name tc.args_json ]

-- PermissionConfirm asks for a tool that would run ungated, PermissionAllow bypasses the gate.
unfoldable pub is_gated : ToolDescriptor → Decision → Bool
is_gated desc prompt = desc.requires_confirmation
is_gated desc allow = false
is_gated desc deny = desc.requires_confirmation
is_gated desc confirm = true

abbrev pub cache_key : Host → PendingToolCall → Text
cache_key h tc = tc.name ++ (codes ":" ++ h.canonical tc.args_json)

-- `cacheOK`, and a hit.
abbrev pub cache_lookup : Host → ToolDescriptor → PendingToolCall → World → Option Text
cache_lookup h desc tc w =
    if desc.cacheable
    then elim h.cache_get [ none ↦ none | some get ↦ get w.cached (cache_key h tc) ]
    else none

abbrev pub cache_ok : Host → ToolDescriptor → Bool
cache_ok h desc = elim h.cache_get [ none ↦ false | some _ ↦ desc.cacheable ]

-- The OnToolResult hook: its error replaces the tool's, its text recovers the call.
unfoldable pub rewrite : Host → Text → PendingToolCall → ToolOutcome → ToolOutcome
rewrite h call_id tc o = elim h.on_tool_result [
  | none ↦ o
  | some hook ↦ elim (hook call_id tc o) [
    | err e ↦ record o { exec_err = some e }
    | ok text ↦ record o { text = text; exec_err = none }
  ]
]

-- A degraded success is filed and annotated.
unfoldable pub apply_degradation : PendingToolCall → ToolOutcome → World → World × Text
unfolding degradation_note
apply_degradation tc o w = elim o.degraded [
  | none ↦ (w, o.text)
  | some d ↦ elim o.exec_err [
    | some e ↦ (w, o.text)
    | none ↦
        (record w { degradations = (tc.name, d) ∷ w.degradations }, o.text ++ degradation_note d)
  ]
]

-- What is behind `Detect`: a loop is fatal and the call gets no reply.
unfoldable pub conclude : Host → Verdict → PendingToolCall → Message → World → World
conclude h quiet tc m w = answer_with tc m (not m.is_error) w
conclude h (kill_args tool) tc m w = record w { ws = set_fatal (kill_args tool) w.ws }
conclude h (kill_result tool) tc m w = record w { ws = set_fatal (kill_result tool) w.ws }
conclude h (warn_args tool n) tc m w =
    answer_with tc
      (record m { content = m.content ++ (codes "\n\n" ++ h.warning (warn_args tool n)) })
      (not m.is_error) (emit (thought loop_warning) w)
conclude h (warn_result tool n) tc m w =
    answer_with tc
      (record m { content = m.content ++ (codes "\n\n" ++ h.warning (warn_result tool n)) })
      (not m.is_error) (emit (thought loop_warning) w)
