-- ===== src/Execution/Consent.antt =====
-- Which calls reach `tool.Execute`: what the gates of executeToolCall have let through.
use gopheragent.Base.{
  ◌≡◌, refl, ◌∙◌, ◌≢◌, inl, inr, ◌⊎◌, true, false, ◌∷◌, none, some, Text, arith, if_both,
  option_both, any,
}
use gopheragent.History.{Message}
use gopheragent.Permission.Rules.{Decision, prompt, allow, deny, confirm, RuleSet, check, matches}
use gopheragent.AntiLoop.{Verdict, quiet, warn_args, warn_result, kill_args, kill_result}
use gopheragent.Scheduler.{PendingToolCall}
use gopheragent.Execution.Host.{
  ToolDescriptor, ToolOutcome, Answer, HitlOutcome, hitl_approved, hitl_denied, hitl_timed_out,
  hitl_unconfigured, hitl_deferred, thought, human_approved, Host, World, emit,
}
use gopheragent.Execution.Call.{
  run_plan_mode_gate, run_hitl_gate, resolve_approval, permission_of, is_gated, rewrite,
  apply_degradation, conclude, cache_lookup,
}
use gopheragent.Execution.Dispatch.{
  finish, run_tool, proceed, after_approval, note_bypass, announce, remember, stream_inline, govern,
  execute_tool_call,
}

-- The human agreed: in an answer handed to Resume, or when the callback was asked.
abbrev pub Consented : Host → PendingToolCall → Type 0
Consented h tc =
    (h.decisions tc.id ≡ some true)
    ⊎ ((h.decisions tc.id ≡ none)
        × ((h.defer_approvals ≡ false)
            × ((ask : Text → Text → Answer) × ((h.confirm_hitl ≡ some ask)
                  × ((ask tc.name tc.args_json).approved ≡ true)))))

-- The policy allows the call, or the call needs no confirmation, or the human agreed.
abbrev pub Cleared : Host → ToolDescriptor → PendingToolCall → Type 0
Cleared h desc tc =
    (permission_of h tc ≢ deny)
    × ((permission_of h tc ≡ allow)
        ⊎ (((permission_of h tc ≡ prompt) × (desc.requires_confirmation ≡ false)) ⊎ Consented h tc))

-- Neither the cache nor a speculative run has a result for the call.
abbrev pub Fresh : Host → ToolDescriptor → PendingToolCall → World → Type 0
Fresh h desc tc w = (cache_lookup h desc tc w ≡ none) × (h.speculated tc.id ≡ none)

abbrev Ran : PendingToolCall → World → Type 0 → World → Type 0
Ran tc w Q v = (v.ran ≡ w.ran) ⊎ ((v.ran ≡ tc ∷ w.ran) × Q)

ran-conclude :
    (h : Host) (v : Verdict) (tc : PendingToolCall) (m : Message) (w : World)
    → (conclude h v tc m w).ran ≡ w.ran
unfolding conclude
ran-conclude h quiet tc m w = refl
ran-conclude h (kill_args tool) tc m w = refl
ran-conclude h (kill_result tool) tc m w = refl
ran-conclude h (warn_args tool n) tc m w = refl
ran-conclude h (warn_result tool n) tc m w = refl

ran-apply_degradation :
    (tc : PendingToolCall) (o : ToolOutcome) (w : World) → (apply_degradation tc o w).0.ran ≡ w.ran
unfolding apply_degradation
ran-apply_degradation tc o w = ground arith

ran-remember :
    (h : Host) (desc : ToolDescriptor) (tc : PendingToolCall) (o : ToolOutcome) (content : Text)
    (w : World)
    → (remember h desc tc o content (stream_inline desc o content w)).ran ≡ w.ran
ran-remember h desc tc o content w = ground arith

ran-finish :
    (h : Host) (desc : ToolDescriptor) (call_id : Text) (tc : PendingToolCall) (o : ToolOutcome)
    (w : World)
    → (finish h desc call_id tc o w).ran ≡ w.ran
unfolding finish
ran-finish h desc call_id tc o w =
    ran-conclude h _ tc _ _ ∙ (ran-remember h desc tc o _ _ ∙ ran-apply_degradation tc o w)

proceed-Ran :
    (h : Host) (desc : ToolDescriptor) (tc : PendingToolCall) (w : World)
    → Ran tc w (Fresh h desc tc w) (proceed h desc tc w)
unfolding proceed run_tool
proceed-Ran h desc tc w =
    let P = Ran tc w (Fresh h desc tc w) in
    option_both P (cache_lookup h desc tc (announce h tc w))
      (λ missed.
        option_both P (h.speculated tc.id)
          (λ fresh. inr (ran-finish h desc _ tc (rewrite h _ tc (h.execute tc)) _, (missed, fresh)))
          (λ o e. inl (ran-finish h desc _ tc (rewrite h _ tc o) _)))
      (λ hit e. inl refl)

-- The gate runs nothing, writes nothing to the cache, and approves only with consent.
resolve_approval-Consented :
    (h : Host) (tc : PendingToolCall) (w : World)
    → ((resolve_approval h tc w).0.ran ≡ w.ran)
      × (((resolve_approval h tc w).0.cached ≡ w.cached)
          × ((resolve_approval h tc w).1 ≡ hitl_approved → Consented h tc))
unfolding resolve_approval run_hitl_gate
resolve_approval-Consented h tc w = ground arith

ran-run_plan_mode_gate :
    (h : Host) (tc : PendingToolCall) (w : World) → (run_plan_mode_gate h tc w).ran ≡ w.ran
unfolding run_plan_mode_gate
ran-run_plan_mode_gate h tc w = ground arith

after_approval-Ran :
    (h : Host) (desc : ToolDescriptor) (tc : PendingToolCall) (w : World) (o : HitlOutcome)
    → Ran tc w (Fresh h desc tc w × (o ≡ hitl_approved)) (after_approval h desc tc (w, o))
unfolding after_approval
after_approval-Ran h desc tc w hitl_approved =
    elim (proceed-Ran h desc tc (emit (thought human_approved) w)) [
      | inl idle ↦ inl idle
      | inr (ran, fresh) ↦ inr (ran, (fresh, refl))
    ]
after_approval-Ran h desc tc w hitl_deferred = inl refl
after_approval-Ran h desc tc w hitl_denied = inl refl
after_approval-Ran h desc tc w hitl_timed_out = inl refl
after_approval-Ran h desc tc w hitl_unconfigured = inl refl

-- The part of the world that a gate leaves alone.
Ran-same :
    (h : Host) (desc : ToolDescriptor) (tc : PendingToolCall) (w w' v : World) {Q : Type 0}
    → w'.ran ≡ w.ran
    → w'.cached ≡ w.cached
    → Ran tc w' (Fresh h desc tc w' × Q) v
    → Ran tc w (Fresh h desc tc w × Q) v
Ran-same h desc tc w w' v r c (inl idle) = inl (idle ∙ r)
Ran-same h desc tc w w' v r c (inr (ran, (fresh, q))) =
    inr (ran ∙ rw r refl, ((ground arith, fresh.1), q))

approval-Ran :
    (h : Host) (desc : ToolDescriptor) (tc : PendingToolCall) (w : World)
    → Ran tc w
        (Fresh h desc tc w × Consented h tc)
        (after_approval h desc tc (resolve_approval h tc w))
approval-Ran h desc tc w =
    let (r, (c, consent)) = resolve_approval-Consented h tc w in
    let (asked, outcome) = resolve_approval h tc w in
    Ran-same h desc tc w asked (after_approval h desc tc (asked, outcome)) r c
      (elim (after_approval-Ran h desc tc asked outcome) [
        | inl idle ↦ inl idle
        | inr (ran, (fresh, yes_answer)) ↦ inr (ran, (fresh, consent yes_answer))
      ])

open-Ran :
    (h : Host) (desc : ToolDescriptor) (tc : PendingToolCall) (w w' : World)
    → w'.ran ≡ w.ran
    → w'.cached ≡ w.cached
    → Cleared h desc tc
    → Ran tc w (Fresh h desc tc w × Cleared h desc tc) (proceed h desc tc w')
open-Ran h desc tc w w' r c cleared =
    Ran-same h desc tc w w' (proceed h desc tc w') r c (elim (proceed-Ran h desc tc w') [
      | inl idle ↦ inl idle
      | inr (ran, fresh) ↦ inr (ran, (fresh, cleared))
    ])

gated-Ran :
    (h : Host) (desc : ToolDescriptor) (tc : PendingToolCall) (w : World)
    → permission_of h tc ≢ deny
    → Ran tc w
        (Fresh h desc tc w × Cleared h desc tc)
        (after_approval h desc tc (resolve_approval h tc w))
gated-Ran h desc tc w n = elim (approval-Ran h desc tc w) [
  | inl idle ↦ inl idle
  | inr (ran, (fresh, consent)) ↦ inr (ran, (fresh, (n, inr (inr consent))))
]

govern-Ran :
    (h : Host) (desc : ToolDescriptor) (tc : PendingToolCall) (w : World)
    → Ran tc w (Fresh h desc tc w × Cleared h desc tc) (govern h desc (permission_of h tc) tc w)
unfolding govern is_gated
govern-Ran h desc tc w = by_decision (permission_of h tc) refl
  where
    by_decision :
        (d : Decision)
        → permission_of h tc ≡ d
        → Ran tc w (Fresh h desc tc w × Cleared h desc tc) (govern h desc d tc w)
    by_decision deny e = inl refl
    by_decision confirm e = gated-Ran h desc tc w (λ q. cc)
    by_decision allow e =
        open-Ran h desc tc w (note_bypass desc allow w) (ground arith) (ground arith)
          ((λ q. cc), inl e)
    by_decision prompt e =
        if_both (Ran tc w (Fresh h desc tc w × Cleared h desc tc)) desc.requires_confirmation
          (λ gated. gated-Ran h desc tc w (λ q. cc))
          (λ free. open-Ran h desc tc w w refl refl ((λ q. cc), inr (inl (e, free))))

-- `executeToolCall` hands at most one call to `tool.Execute`, the given one, and only if the wave
-- has no fatal error, plan mode is off, the tool is registered, the policy does not deny the call,
-- the policy allows it or it needs no confirmation or the human agreed to it, and neither the
-- cache nor a speculative run has its result.
pub execute-Cleared :
    (h : Host) (tc : PendingToolCall) (w : World)
    → ((execute_tool_call h tc w).ran ≡ w.ran)
      ⊎ (((execute_tool_call h tc w).ran ≡ tc ∷ w.ran)
          × ((w.ws.fatal_err ≡ none)
              × ((w.plan_mode ≡ false)
                  × ((desc : ToolDescriptor) × ((h.lookup tc.name ≡ some desc)
                        × (Fresh h desc tc w × Cleared h desc tc))))))
unfolding execute_tool_call run_plan_mode_gate
execute-Cleared h tc w =
    let Q =
      (w.ws.fatal_err ≡ none)
      × ((w.plan_mode ≡ false)
          × ((desc : ToolDescriptor) × ((h.lookup tc.name ≡ some desc)
                × (Fresh h desc tc w × Cleared h desc tc)))) in
    let P = Ran tc w Q in
    option_both P w.ws.fatal_err
      (λ calm.
        if_both P w.plan_mode (λ _. inl (ran-run_plan_mode_gate h tc w))
          (λ normal.
            option_both P (h.lookup tc.name) (λ e. inl refl)
              (λ desc e. elim (govern-Ran h desc tc w) [
                | inl idle ↦ inl idle
                | inr (ran, cleared) ↦ inr (ran, (calm, (normal, (desc, (e, cleared)))))
              ])))
      (λ v e. inl refl)

permission_of-some :
    (h : Host) (tc : PendingToolCall) (rules : Text → Text → Decision)
    → h.permissions ≡ some rules
    → permission_of h tc ≡ rules tc.name tc.args_json
unfolding permission_of
permission_of-some h tc rules e =
    option_both (λ (d : Decision). d ≡ rules tc.name tc.args_json) h.permissions (λ gone. absurd cc)
      (λ g q. cc)

-- If the loop's policy is a rule set and one of its deny rules matches the call, then
-- `executeToolCall` never hands the call to `tool.Execute`, in whatever state the loop is and
-- whatever the human would answer.
pub denied_never_runs :
    (h : Host) (rs : RuleSet) (tc : PendingToolCall) (w : World)
    → h.permissions ≡ some (check rs)
    → any (λ r. matches r tc.name tc.args_json) rs.denies ≡ true
    → (execute_tool_call h tc w).ran ≡ w.ran
unfolding check
denied_never_runs h rs tc w policy hit = elim (execute-Cleared h tc w) [
  | inl idle ↦ idle
  | inr (_, (_, (_, (_, (_, (_, cleared)))))) ↦
      absurd (cleared.0 (permission_of-some h tc (check rs) policy ∙ rw (check, hit) refl))
]
