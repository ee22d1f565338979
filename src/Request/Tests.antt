-- ===== src/Request/Tests.antt =====
-- Runs of the request path and witnesses of its theorems.
use gopheragent.Base.{
  ℕ, zero, suc, ◌/◌, ◌≡◌, refl, sym, ap, ◌∙◌, same, any, arith, ◌↔◌, true, false, List, [], ◌∷◌,
  ◌++◌, Text, codes, none, some, Result, ok, text_discrete, drop, length,
}
use gopheragent.History.{Message, plain_message, role_system, role_user, role_assistant, role_tool}
use gopheragent.Request.Window.{leading_system, snap_back}
use gopheragent.Request.Window.Rooted.{Balanced}
use mathlib.Core.Bool.{true≢false}
use gopheragent.Request.Dangling.{has_dangling_tool_calls, responded, block}
use gopheragent.Request.Dangling.Paired.{has_dangling_iff}
use gopheragent.Request.View.{
  CompactionPlan, is_record, compacted_view, plan_compaction, compact_history, compaction_record,
  insert_record, record_below, latest_compaction, bound_span, fitting, record_at,
}
use gopheragent.Request.View.Balanced.{Segmented}
use gopheragent.Request.View.Lossless.{plan_compaction-tail, compact_history-Balanced}
use gopheragent.Request.Derive.{RequestPolicy, derive_request_messages}
use gopheragent.Request.Derive.Sound.{derive-Balanced}
use gopheragent.Request.Invariant.{with_dynamic_context, derivation_reproduces, conversation_of}
use gopheragent.Request.Invariant.Woven.{Woven, derivation_reproduces_iff}
use gopheragent.Request.Invariant.Injected.{derivation_reproduces-derived}

abbrev system : Message
system = plain_message role_system (codes "be kind")

abbrev ask : Message
ask = plain_message role_user (codes "count the rows")

abbrev call_rows : Message
call_rows = record (plain_message role_assistant []) {
  tool_calls = record { id = codes "c1"; name = codes "sql"; arguments = codes "{}" } ∷ [];
}

abbrev rows : Message
rows = record (plain_message role_tool (codes "42")) { tool_call_id = codes "c1" }

abbrev answer : Message
answer = plain_message role_assistant (codes "42 rows")

-- Two turns with a tool call each.
abbrev two_turns : List Message
two_turns = system ∷ ask ∷ call_rows ∷ rows ∷ answer ∷ ask ∷ call_rows ∷ rows ∷ answer ∷ ask ∷ []

abbrev answered : Text → List Message → Result Text Text
answered previous span = ok (codes "they counted rows")

abbrev policy : RequestPolicy
policy = record { token_budget = 40; history_window = 4 }

abbrev warn_at : ℕ → ℕ
warn_at budget = budget / 2

abbrev first_plan : CompactionPlan
first_plan = record { at = 5; previous = []; span = ask ∷ call_rows ∷ rows ∷ answer ∷ [] }

-- The compaction puts its record before the last user message that its half window reaches.
compacted : length (compact_history answered true 4 two_turns).0 ≡ 11
unfolding compact_history plan_compaction compacted_view leading_system latest_compaction
    record_below snap_back bound_span fitting text_discrete
compacted = refl

two_turns-Balanced : Balanced two_turns
unfolding text_discrete has_dangling_tool_calls responded block
two_turns-Balanced =
    let no_tool = λ (t : Text) (q : t ≡ role_tool). ap (λ u. same u role_tool) q in
    (
      (has_dangling_iff two_turns).0 refl,
      (
        no_tool role_system,
        (
          no_tool role_user,
          (
            no_tool role_assistant,
            (
              λ _. refl,
              (
                no_tool role_assistant,
                (
                  no_tool role_user,
                  (
                    no_tool role_assistant,
                    (λ _. refl, (no_tool role_assistant, (no_tool role_user, tt))),
                  ),
                ),
              ),
            ),
          ),
        ),
      ),
    )

unrecorded : (ms : List Message) (i : ℕ) → any is_record ms ≡ false → record_at ms i ≡ false
unrecorded [] i h = refl
unrecorded (m ∷ ms) zero h = ground arith
unrecorded (m ∷ ms) (suc i) h = unrecorded ms i (ground arith)

two_turns-Segmented : Segmented two_turns
two_turns-Segmented i h = absurd (true≢false (sym h ∙ unrecorded two_turns i refl))

compact_history-Balanced_example :
    Segmented (compact_history answered true 4 two_turns).0
    × Balanced (compact_history answered true 4 two_turns).0
compact_history-Balanced_example =
    compact_history-Balanced answered true 4 two_turns two_turns-Segmented two_turns-Balanced

derive-Balanced_example : Balanced (derive_request_messages warn_at two_turns policy).messages
derive-Balanced_example =
    derive-Balanced warn_at two_turns policy two_turns-Segmented two_turns-Balanced

two_turns_due : plan_compaction two_turns 4 ≡ some first_plan
unfolding plan_compaction compacted_view leading_system latest_compaction record_below snap_back
    text_discrete
two_turns_due = refl

plan_compaction-tail_example :
    first_plan.span
      ++ drop
          (compacted_view
            (insert_record two_turns first_plan.at (compaction_record (codes "rows") 4))).head
          (compacted_view
            (insert_record two_turns first_plan.at (compaction_record (codes "rows") 4))).msgs
    ≡ drop (compacted_view two_turns).head (compacted_view two_turns).msgs
plan_compaction-tail_example =
    plan_compaction-tail two_turns 4 first_plan (codes "rows") 4 two_turns_due

derivation_reproduces_iff_example :
    (derivation_reproduces warn_at two_turns policy two_turns ≡ none)
    ↔ Woven
        (conversation_of (derive_request_messages warn_at two_turns policy).messages)
        (conversation_of two_turns)
derivation_reproduces_iff_example = derivation_reproduces_iff warn_at two_turns policy two_turns

derivation_reproduces-derived_example :
    derivation_reproduces warn_at two_turns policy (
      with_dynamic_context
        (some (codes "now"))
        (derive_request_messages warn_at two_turns policy).messages)
    ≡ none
derivation_reproduces-derived_example =
    derivation_reproduces-derived warn_at two_turns policy (some (codes "now"))
