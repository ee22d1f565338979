-- ===== src/Execution/Parked.antt =====
-- Which calls a run with deferred approvals leaves for Resume.
use gopheragent.Base.{
  ◌≡◌, refl, sym, ◌∙◌, ap, Bool, true, false, List, [], ◌∷◌, ◌++◌, Option, none, some, Text,
  if◌then◌else◌, if_both, option_both, arith,
}
use mathlib.Core.Bool.{true≢false}
use gopheragent.History.{Message}
use gopheragent.Permission.Rules.{Decision, prompt, allow, deny, confirm}
use gopheragent.AntiLoop.{Verdict, quiet, warn_args, warn_result, kill_args, kill_result}
use gopheragent.Scheduler.{PendingToolCall}
use gopheragent.Execution.State.{WaveState, record_tool_msg, mark_pending, set_fatal}
use gopheragent.Execution.Host.{
  error_event, not_found, ToolDescriptor, ToolOutcome, HitlOutcome, Host, World, emit,
}
use gopheragent.Execution.Call.{
  permission_of, is_gated, resolve_approval, refuse, conclude, rewrite, cache_lookup,
}
use gopheragent.Execution.Dispatch.{
  execute_tool_call, govern, note_bypass, announce, remember, stream_inline, proceed, run_tool,
  finish, after_approval,
}
use gopheragent.Execution.Effects.{ws-apply_degradation}
use gopheragent.Execution.Resume.{would_stop, needs_approval}

pending-record_tool_msg :
    (id : Text) (m : Message) (b : Bool) (ws : WaveState)
    → (record_tool_msg id m b ws).pending ≡ ws.pending
unfolding record_tool_msg
pending-record_tool_msg id m true ws = refl
pending-record_tool_msg id m false ws = refl

pending-set_fatal : (v : Verdict) (ws : WaveState) → (set_fatal v ws).pending ≡ ws.pending
unfolding set_fatal
pending-set_fatal v ws =
    option_both (λ (s : WaveState). s.pending ≡ ws.pending) ws.fatal_err (λ _. refl) (λ _ _. refl)

pending-conclude :
    (h : Host) (v : Verdict) (tc : PendingToolCall) (m : Message) (w : World)
    → (conclude h v tc m w).ws.pending ≡ w.ws.pending
unfolding conclude
pending-conclude h quiet tc m w = pending-record_tool_msg tc.id m _ w.ws
pending-conclude h (kill_args tool) tc m w = pending-set_fatal (kill_args tool) w.ws
pending-conclude h (kill_result tool) tc m w = pending-set_fatal (kill_result tool) w.ws
pending-conclude h (warn_args tool n) tc m w = pending-record_tool_msg tc.id _ _ w.ws
pending-conclude h (warn_result tool n) tc m w = pending-record_tool_msg tc.id _ _ w.ws

ws-remember :
    (h : Host) (desc : ToolDescriptor) (tc : PendingToolCall) (o : ToolOutcome) (content : Text)
    (w : World)
    → (remember h desc tc o content (stream_inline desc o content w)).ws ≡ w.ws
ws-remember h desc tc o content w = ground arith

pending-finish :
    (h : Host) (desc : ToolDescriptor) (call_id : Text) (tc : PendingToolCall) (o : ToolOutcome)
    (w : World)
    → (finish h desc call_id tc o w).ws.pending ≡ w.ws.pending
unfolding finish
pending-finish h desc call_id tc o w =
    pending-conclude h _ tc _ _
    ∙ ap (λ (s : WaveState). s.pending) (ws-remember h desc tc o _ _ ∙ ws-apply_degradation tc o w)

pending-proceed :
    (h : Host) (desc : ToolDescriptor) (tc : PendingToolCall) (w : World)
    → (proceed h desc tc w).ws.pending ≡ w.ws.pending
unfolding proceed run_tool
pending-proceed h desc tc w =
    let P = λ (v : World). v.ws.pending ≡ w.ws.pending in
    option_both P (cache_lookup h desc tc (announce h tc w))
      (λ _.
        option_both P (h.speculated tc.id)
          (λ _. pending-finish h desc _ tc (rewrite h _ tc (h.execute tc)) _)
          (λ o _. pending-finish h desc _ tc (rewrite h _ tc o) _))
      (λ hit _. pending-record_tool_msg tc.id _ true w.ws)

-- A gated call without a decision is parked.
parked :
    (h : Host) (desc : ToolDescriptor) (tc : PendingToolCall) (w : World)
    → h.defer_approvals ≡ true
    → h.decisions tc.id ≡ none
    → (after_approval h desc tc (resolve_approval h tc w)).ws.pending ≡ w.ws.pending ++ tc ∷ []
unfolding resolve_approval after_approval mark_pending
parked h desc tc w defers open_call =
    let P = λ (r : World × HitlOutcome).
      (after_approval h desc tc r).ws.pending ≡ w.ws.pending ++ tc ∷ [] in
    option_both P (h.decisions tc.id)
      (λ _.
        if_both P h.defer_approvals (λ _. refl) (λ asks. absurd (true≢false (sym defers ∙ asks))))
      (λ answer decided. absurd cc)

if-pending :
    (b : Bool) (x y : World) (p q : List PendingToolCall)
    → x.ws.pending ≡ p
    → y.ws.pending ≡ q
    → (if b then x else y).ws.pending ≡ (if b then p else q)
if-pending true x y p q e f = e
if-pending false x y p q e f = f

govern-parks :
    (h : Host) (desc : ToolDescriptor) (d : Decision) (tc : PendingToolCall) (w : World)
    → h.defer_approvals ≡ true
    → h.decisions tc.id ≡ none
    → (govern h desc d tc w).ws.pending
      ≡ (if would_stop desc d then w.ws.pending ++ tc ∷ [] else w.ws.pending)
unfolding govern is_gated
govern-parks h desc deny tc w defers open_call = pending-record_tool_msg tc.id _ false w.ws
govern-parks h desc confirm tc w defers open_call = parked h desc tc w defers open_call
govern-parks h desc prompt tc w defers open_call =
    if-pending desc.requires_confirmation _ _ _ _ (parked h desc tc w defers open_call)
      (pending-proceed h desc tc w)
govern-parks h desc allow tc w defers open_call =
    pending-proceed h desc tc (note_bypass desc allow w)
    ∙ if_both (λ (v : World). v.ws.pending ≡ w.ws.pending) desc.requires_confirmation (λ _. refl)
        (λ _. refl)

-- Take a run that defers approvals, a call without a decision, no fatal error and plan mode off.
-- Then `executeToolCall` parks the call exactly if `needsApproval` says that it would stop at the
-- gate, and otherwise leaves the parked calls as they are.
pub execute-parks :
    (h : Host) (tc : PendingToolCall) (w : World)
    → h.defer_approvals ≡ true
    → h.decisions tc.id ≡ none
    → w.ws.fatal_err ≡ none
    → w.plan_mode ≡ false
    → (execute_tool_call h tc w).ws.pending
      ≡ (if needs_approval h tc then w.ws.pending ++ tc ∷ [] else w.ws.pending)
unfolding execute_tool_call needs_approval
execute-parks h tc w defers open_call calm normal =
    let goal = if needs_approval h tc then w.ws.pending ++ tc ∷ [] else w.ws.pending in
    let P = λ (v : World). v.ws.pending ≡ goal in
    option_both P w.ws.fatal_err
      (λ _.
        if_both P w.plan_mode (λ planning. absurd (true≢false (sym planning ∙ normal)))
          (λ _. by_lookup (h.lookup tc.name)))
      (λ v e. absurd cc)
  where
    by_lookup :
        (found_tool : Option ToolDescriptor)
        → (elim found_tool as (λ _. World) [
          | none ↦ refuse h not_found tc (emit (error_event not_found) w)
          | some desc ↦ govern h desc (permission_of h tc) tc w
        ]).ws.pending
          ≡ (if (elim found_tool as (λ _. Bool) [
            | none ↦ false
            | some desc ↦ would_stop desc (permission_of h tc)
          ])
              then w.ws.pending ++ tc ∷ []
              else w.ws.pending)
    by_lookup none = pending-record_tool_msg tc.id _ false w.ws
    by_lookup (some desc) = govern-parks h desc (permission_of h tc) tc w defers open_call
