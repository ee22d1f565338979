-- ===== src/Execution/Transcript.antt =====
-- The replies that recordToolTurn puts in the transcript.
use gopheragent.Base.{
  ℕ, ◌≡◌, refl, sym, subst, ◌∙◌, ◌≢◌, inl, inr, false, ◌||◌, same, List, [], ◌∷◌, ◌++◌, map, some,
  Text, find, put, if_both, option_both, All, All-map, text_discrete, take, take-append-drop,
  append_assoc, length, ◌==◌, leb,
}
use gopheragent.History.{Message, ToolCall, role_tool, role_assistant}
use gopheragent.Scheduler.{PendingToolCall}
use gopheragent.Request.Dangling.{starts_turn}
use gopheragent.Request.Dangling.Paired.{Replied, Paired}
use gopheragent.Execution.State.{
  found, prepend_found, history_call, call_message, error_reply, results_in_order,
  append_assistant_tool_call_msg, append_tool_results_in_order, synthesize_dropped_tool_errors,
  synthesize_missing_tool_errors,
}
use gopheragent.Execution.Turn.{apply_tool_call_budget, approval_pending, turn_end}
use gopheragent.Execution.Replies.{Filed, Held, found-Filed, put-Filed, put-Held, put-Held_self}

tool_message-lem :
    (m : Message) → m.role ≡ role_tool → (starts_turn m ≡ false) × (m.role ≢ role_assistant)
unfolding text_discrete
tool_message-lem m e = rw e (refl, λ q. cc)

Replied-append : (id : Text) (xs ys : List Message) → Replied id xs → Replied id (xs ++ ys)
Replied-append id [] ys h = absurd h
Replied-append id (x ∷ xs) ys (turn, inl here) = (turn, inl here)
Replied-append id (x ∷ xs) ys (turn, inr later) = (turn, inr (Replied-append id xs ys later))

Paired-append : (xs ys : List Message) → Paired xs → Paired ys → Paired (xs ++ ys)
Paired-append [] ys h k = k
Paired-append (x ∷ xs) ys h k =
    (λ e. All-map x.tool_calls (λ c. Replied-append c.id xs ys) (h.0 e), Paired-append xs ys h.1 k)

-- The entry of a call, and a name for it.
abbrev Answerable : List (Text × Message) → PendingToolCall → Type 0
Answerable t c = (c.id ≢ []) × Held t c.id

module _ (t : List (Text × Message)) (filed : Filed t) where
  results-Paired : (cs : List PendingToolCall) → Paired (results_in_order cs t)
  unfolding results_in_order
  results-Paired [] = tt
  results-Paired (c ∷ cs) =
      option_both (λ o. Paired (prepend_found o (results_in_order cs t))) (find c.id t)
        (λ _. results-Paired cs)
        (λ m e.
          if_both (λ o. Paired (prepend_found o (results_in_order cs t))) (same m.role [])
            (λ _. results-Paired cs)
            (λ _. (λ a. absurd ((tool_message-lem m (filed c.id m e).0).1 a), results-Paired cs)))

  results-cons :
      (c : PendingToolCall) (cs : List PendingToolCall)
      → Answerable t c
      → (m : Message) × ((results_in_order (c ∷ cs) t ≡ m ∷ results_in_order cs t)
          × ((m.role ≡ role_tool) × (m.tool_call_id ≡ c.id)))
  unfolding results_in_order
  results-cons c cs (named, (m, e)) = (m, (rw (found-Filed c.id t m filed e) refl, filed c.id m e))

  results-Replied :
      (cs : List PendingToolCall)
      → All (Answerable t) cs
      → All (λ (c : ToolCall). Replied c.id (results_in_order cs t)) (map history_call cs)
  unfolding results_in_order
  results-Replied [] h = tt
  results-Replied (c ∷ cs) (a, h) =
      let (m, (e, (r, i))) = results-cons c cs a in
      let turn = (tool_message-lem m r).0 in
      subst (λ x. All (λ (d : ToolCall). Replied d.id x) (map history_call (c ∷ cs))) (sym e)
        (
          (turn, inl (r, (λ q. a.0 (sym i ∙ q)), i)),
          All-map (map history_call cs) (λ d later. (turn, inr later)) (results-Replied cs h),
        )

found-Held : (id : Text) (t : List (Text × Message)) (m : Message) → found id t ≡ some m → Held t id
found-Held id t m =
    option_both (λ o. o ≡ some m → Held t id) (find id t) (λ _ bad. absurd cc) (λ a e _. (a, e))

error_reply-Filed :
    (tc : PendingToolCall) (text : Text) (t : List (Text × Message))
    → Filed t
    → Filed (put tc.id (error_reply tc text) t)
error_reply-Filed tc text t = put-Filed tc.id (error_reply tc text) t refl refl

module _ (text : Text) where
  pub dropped-Filed :
      (cs : List PendingToolCall) (t : List (Text × Message))
      → Filed t
      → Filed (synthesize_dropped_tool_errors cs text t)
  unfolding synthesize_dropped_tool_errors
  dropped-Filed [] t filed = filed
  dropped-Filed (c ∷ cs) t filed = dropped-Filed cs _ (error_reply-Filed c text t filed)

  pub dropped-keeps :
      (cs : List PendingToolCall) (t : List (Text × Message)) (id : Text)
      → Held t id
      → Held (synthesize_dropped_tool_errors cs text t) id
  unfolding synthesize_dropped_tool_errors
  dropped-keeps [] t id held = held
  dropped-keeps (c ∷ cs) t id held = dropped-keeps cs _ id (put-Held c.id id _ t held)

  pub dropped-Held :
      (cs : List PendingToolCall) (t : List (Text × Message))
      → All (λ (c : PendingToolCall). Held (synthesize_dropped_tool_errors cs text t) c.id) cs
  unfolding synthesize_dropped_tool_errors
  dropped-Held [] t = tt
  dropped-Held (c ∷ cs) t = (dropped-keeps cs _ c.id (put-Held_self c.id _ t), dropped-Held cs _)

  pub missing-Filed :
      (cs : List PendingToolCall) (t : List (Text × Message))
      → Filed t
      → Filed (synthesize_missing_tool_errors cs text t)
  unfolding synthesize_missing_tool_errors
  missing-Filed [] t filed = filed
  missing-Filed (c ∷ cs) t filed =
      missing-Filed cs _
        (option_both Filed (found c.id t) (λ _. error_reply-Filed c text t filed) (λ _ _. filed))

  missing-keeps :
      (cs : List PendingToolCall) (t : List (Text × Message)) (id : Text)
      → Held t id
      → Held (synthesize_missing_tool_errors cs text t) id
  unfolding synthesize_missing_tool_errors
  missing-keeps [] t id held = held
  missing-keeps (c ∷ cs) t id held =
      missing-keeps cs _ id
        (option_both (λ x. Held x id) (found c.id t) (λ _. put-Held c.id id _ t held) (λ _ _. held))

  pub missing-Held :
      (cs : List PendingToolCall) (t : List (Text × Message))
      → Filed t
      → All (λ (c : PendingToolCall). Held (synthesize_missing_tool_errors cs text t) c.id) cs
  unfolding synthesize_missing_tool_errors
  missing-Held [] t filed = tt
  missing-Held (c ∷ cs) t filed = (
    missing-keeps cs _ c.id (
        option_both (λ x. Held x c.id) (found c.id t) (λ _. put-Held_self c.id _ t)
          (λ m e. found-Held c.id t m e)),
    missing-Held cs _
        (option_both Filed (found c.id t) (λ _. error_reply-Filed c text t filed) (λ _ _. filed)),
  )

All-append {ℓ κ} :
    {A : Type ℓ} (P : A → Type κ) (xs ys : List A) → All P xs → All P ys → All P (xs ++ ys)
All-append P [] ys h k = k
All-append P (x ∷ xs) ys h k = (h.0, All-append P xs ys h.1 k)

-- The budget splits the calls in two.
pub budget-All :
    (limit : ℕ) (calls : List PendingToolCall) (P : PendingToolCall → Type 0)
    → All P (apply_tool_call_budget limit calls).0
    → All P (apply_tool_call_budget limit calls).1
    → All P calls
unfolding apply_tool_call_budget
budget-All limit calls P =
    if_both
      (λ (r : List PendingToolCall × List PendingToolCall). All P r.0 → All P r.1 → All P calls)
      (limit == 0 || leb (length calls) limit) (λ _ h k. h)
      (λ _ h k.
        subst (All P) (take-append-drop limit calls) (All-append P (take limit calls) _ h k))

-- A transcript, the assistant turn with its calls, and the replies to them.
pub answered-Paired :
    (msgs : List Message) (content : Text) (calls : List PendingToolCall)
    (t : List (Text × Message))
    → Paired msgs
    → Filed t
    → All (λ (c : PendingToolCall). c.id ≢ []) calls
    → All (λ (c : PendingToolCall). Held t c.id) calls
    → Paired
        (append_tool_results_in_order (append_assistant_tool_call_msg msgs content calls) calls t)
unfolding append_tool_results_in_order append_assistant_tool_call_msg
answered-Paired msgs content calls t paired filed named held =
    subst Paired
      (sym (append_assoc msgs (call_message content calls ∷ []) (results_in_order calls t)))
      (Paired-append msgs _ paired (
        (λ _. results-Replied t filed calls (both calls named held)),
        results-Paired t filed calls,
      ))
  where
    both :
        (cs : List PendingToolCall)
        → All (λ (c : PendingToolCall). c.id ≢ []) cs
        → All (λ (c : PendingToolCall). Held t c.id) cs
        → All (Answerable t) cs
    both [] n k = tt
    both (c ∷ cs) n k = ((n.0, k.0), both cs n.1 k.1)

pub turn_end-Calm :
    (pending : List PendingToolCall)
    → ((n : ℕ) → turn_end pending ≢ approval_pending n)
    → pending ≡ []
unfolding turn_end
turn_end-Calm [] h = refl
turn_end-Calm (tc ∷ pending) h = absurd (h _ refl)
