-- ===== src/Request/Derive/Sound.antt =====
-- What the derivation of a request keeps.
use gopheragent.Base.{ℕ, ◌&&◌, ◌==◌, sym, subst, List, [], ◌∷◌, if_both, ltb, leb}
use gopheragent.History.{Message}
use gopheragent.Request.Window.{history_window_start, apply_history_window}
use gopheragent.Request.Window.Rooted.{Balanced, window-Balanced}
use gopheragent.Request.View.{compacted_view}
use gopheragent.Request.View.Balanced.{Segmented, view-Balanced}
use gopheragent.Request.Prune.{ContextRef, prune_context_messages, truncate_tool_arguments}
use gopheragent.Request.Prune.Frames.{Balanced-recontent, prune-recontent, truncate-recontent}
use gopheragent.Request.Derive.{
  ContextPolicy, Notice, policy_default, policy_budget_warn, near_threshold, ContextDerivation,
  RequestPolicy, estimate_tokens, apply_token_budget, prune_to_budget, derive_request_messages,
}

prune-Balanced :
    (msgs : List Message) (n : ℕ) → Balanced msgs → Balanced (prune_context_messages msgs n).0
prune-Balanced msgs n h =
    subst Balanced (sym (prune-recontent msgs n)) (Balanced-recontent _ msgs h)

truncate-Balanced :
    (msgs : List Message) → Balanced msgs → Balanced (truncate_tool_arguments msgs).0
truncate-Balanced msgs h =
    subst Balanced (sym (truncate-recontent msgs)) (Balanced-recontent _ msgs h)

prune_to_budget-Balanced :
    (budget : ℕ) (policy : ContextPolicy) (notices : List Notice) (msgs : List Message)
    (refs : List ContextRef)
    → Balanced msgs
    → Balanced (prune_to_budget budget policy notices (msgs, refs)).messages
prune_to_budget-Balanced budget policy notices msgs refs h =
    if_both (λ (d : ContextDerivation). Balanced d.messages) (ltb budget (estimate_tokens msgs))
      (λ _. prune-Balanced msgs 1 h) (λ _. prune-Balanced msgs 3 h)

apply_token_budget-Balanced :
    (warn_at : ℕ → ℕ) (stored : List Message) (budget : ℕ)
    → Balanced stored
    → Balanced (apply_token_budget warn_at stored budget).messages
unfolding apply_token_budget
apply_token_budget-Balanced warn_at stored budget h =
    let P = λ (d : ContextDerivation). Balanced d.messages in
    let est = estimate_tokens stored in
    if_both P (budget == 0) (λ _. prune-Balanced stored 3 h)
      (λ _.
        if_both P (ltb (warn_at budget) est && leb est budget)
          (λ _.
            prune_to_budget-Balanced budget policy_budget_warn
              (near_threshold est (warn_at budget) ∷ []) _ _ (truncate-Balanced stored h))
          (λ _. prune_to_budget-Balanced budget policy_default [] stored [] h))

-- If a stored history is balanced and a user message or the end stands behind each compaction
-- record, then the derived request is balanced, whatever the window and the token budget: every
-- call of an assistant message has its answer and every answer its call.
pub derive-Balanced :
    (warn_at : ℕ → ℕ) (stored : List Message) (p : RequestPolicy)
    → Segmented stored
    → Balanced stored
    → Balanced (derive_request_messages warn_at stored p).messages
unfolding derive_request_messages
derive-Balanced warn_at stored p seg h =
    let v = compacted_view stored in
    apply_token_budget-Balanced warn_at
      (apply_history_window v.msgs (history_window_start v.msgs p.history_window).0
        (history_window_start v.msgs p.history_window).1)
      p.token_budget (window-Balanced v.msgs p.history_window (view-Balanced stored seg h))
