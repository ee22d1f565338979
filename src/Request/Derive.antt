-- ===== src/Request/Derive.antt =====
-- pkg/agent/loop_iteration_helpers.go: the messages that one request carries, derived from the
-- stored history, with historyWindow's policy and estimateTokens of loop_stream.go.
use gopheragent.Base.{
  ℕ, zero, suc, ◌+◌, ◌-◌, ◌/◌, Bool, true, false, ◌&&◌, ◌||◌, not, List, [], ◌∷◌, ◌++◌, Option,
  some, none, if◌then◌else◌, length, ltb, leb, ◌==◌, Text, codes, map,
}
use gopheragent.History.{Message, ToolCall}
use gopheragent.Request.Window.{history_window_start, apply_history_window}
use gopheragent.Request.View.{RequestView, stored_index, compacted_view}
use gopheragent.Request.Prune.{ContextRef, prune_context_messages, truncate_tool_arguments}
pub mod Sound

abbrev pub arguments_tokens : List ToolCall → ℕ
arguments_tokens [] = 0
arguments_tokens (c ∷ cs) = length c.arguments / 4 + arguments_tokens cs

unfoldable pub estimate_tokens : List Message → ℕ
estimate_tokens [] = 0
estimate_tokens (m ∷ ms) =
    length m.content / 4 + (arguments_tokens m.tool_calls + estimate_tokens ms)

pub data ContextPolicy : Type 0 where
  policy_default policy_budget_warn policy_budget_emergency : ContextPolicy

-- The notices by what they report: the estimate that crossed a threshold.
pub data Notice : Type 0 where
  near_threshold : ℕ → ℕ → Notice
  exceeded : ℕ → Notice

pub record ContextDerivation : Type 0 where
  pub messages : List Message
  pub policy : ContextPolicy
  pub changes : List ContextRef
  pub notices : List Notice
  pub window_start : Option ℕ
  pub window_dropped : ℕ
  pub summary_index : ℕ

pub record RequestPolicy : Type 0 where
  pub token_budget : ℕ
  pub history_window : ℕ

abbrev pub default_protected_ends : ℕ
default_protected_ends = 3

abbrev pub emergency_protected_ends : ℕ
emergency_protected_ends = 1

-- The list and its trace, after one more pass.
abbrev pub budgeted :
    ContextPolicy
    → List Notice
    → List ContextRef
    → List Message × List ContextRef
    → ContextDerivation
budgeted policy notices before (msgs, refs) = record {
  messages = msgs;
  policy = policy;
  changes = before ++ refs;
  notices = notices;
  window_start = some 0;
  window_dropped = 0;
  summary_index = 0;
}

-- The emergency prune behind a first pass.
abbrev pub prune_to_budget :
    ℕ → ContextPolicy → List Notice → List Message × List ContextRef → ContextDerivation
prune_to_budget budget policy notices (msgs, refs) =
    if ltb budget (estimate_tokens msgs)
    then budgeted policy_budget_emergency (notices ++ exceeded (estimate_tokens msgs) ∷ []) refs
        (prune_context_messages msgs emergency_protected_ends)
    else budgeted policy notices refs (prune_context_messages msgs default_protected_ends)

-- `warn_at` is the float product of the budget and budgetWarnRatio. A budget of 0 stands for every
-- one that is not positive.
unfoldable pub apply_token_budget : (ℕ → ℕ) → List Message → ℕ → ContextDerivation
unfolding estimate_tokens prune_context_messages truncate_tool_arguments
apply_token_budget warn_at stored budget =
    let est = estimate_tokens stored in
    if budget == 0
    then budgeted policy_default [] [] (prune_context_messages stored default_protected_ends)
    else if ltb (warn_at budget) est && leb est budget
    then prune_to_budget budget policy_budget_warn (near_threshold est (warn_at budget) ∷ [])
        (truncate_tool_arguments stored)
    else prune_to_budget budget policy_default [] (stored, [])

-- Indexes of the windowed view, mapped back onto stored history.
abbrev pub rebase_ref : RequestView → ℕ → ℕ → ContextRef → ContextRef
rebase_ref v start sys r = elim r.index [
  | none ↦ r
  | some i ↦ record r { index = stored_index v (if leb sys i then i + (start - sys) else i) }
]

unfoldable pub derive_request_messages : (ℕ → ℕ) → List Message → RequestPolicy → ContextDerivation
unfolding apply_token_budget history_window_start apply_history_window compacted_view stored_index
derive_request_messages warn_at stored p =
    let v = compacted_view stored in
    let (start, sys) = history_window_start v.msgs p.history_window in
    let d = apply_token_budget warn_at (apply_history_window v.msgs start sys) p.token_budget in
    record d {
      changes = map (rebase_ref v start sys) d.changes;
      window_start = if ltb sys start then stored_index v start else some 0;
      window_dropped = start - sys;
      summary_index = elim v.record_index [ none ↦ 0 | some i ↦ i ];
    }

pub record ContextTraceEvent : Type 0 where
  pub policy : ContextPolicy
  pub iteration : ℕ
  pub changes : List ContextRef
  pub est_tokens_before : ℕ
  pub est_tokens_after : ℕ
  pub window_start : Option ℕ
  pub window_dropped : ℕ
  pub summary_index : ℕ

abbrev pub is_nil {ℓ} : {A : Type ℓ} → List A → Bool
is_nil [] = true
is_nil (x ∷ xs) = false

-- The event of emitContextTrace, where it emits one.
unfoldable pub context_trace : ℕ → List Message → ContextDerivation → Option ContextTraceEvent
unfolding estimate_tokens
context_trace iteration before d =
    if is_nil d.changes && d.window_dropped == 0
    then none
    else some (record {
      policy = d.policy;
      iteration = iteration;
      changes = d.changes;
      est_tokens_before = estimate_tokens before;
      est_tokens_after = estimate_tokens d.messages;
      window_start = d.window_start;
      window_dropped = d.window_dropped;
      summary_index = d.summary_index;
    })
