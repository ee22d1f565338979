-- ===== src/Execution/Replies.antt =====
-- The replies that the calls of a turn leave in the wave, in every order of the calls.
use gopheragent.Base.{
  ◌≡◌, refl, sym, subst, ◌∙◌, ◌≢◌, inl, inr, true, same, same_ne, same_iff, List, [], ◌∷◌, ◌++◌,
  none, some, Text, arith, find, put, Bool-cases, Option-cases, option_both,
}
use gopheragent.History.{Message, role_tool}
use gopheragent.AntiLoop.{Verdict}
use gopheragent.Scheduler.{PendingToolCall, has_key, ids_of}
use gopheragent.Execution.State.{WaveState, found}
use gopheragent.Execution.Host.{Host, World}
use gopheragent.Execution.Dispatch.{execute_tool_call}
use gopheragent.Execution.Effects.{Effect, answered, deferred, aborted, execute-Effect}
use gopheragent.Execution.Turn.{run_calls}

-- Every entry is a tool message that names its key.
abbrev pub Filed : List (Text × Message) → Type 0
Filed t =
    (id : Text) (m : Message) → find id t ≡ some m → (m.role ≡ role_tool) × (m.tool_call_id ≡ id)

abbrev pub Held : List (Text × Message) → Text → Type 0
Held t id = (m : Message) × (find id t ≡ some m)

pub put-Filed :
    (k : Text) (a : Message) (t : List (Text × Message))
    → a.role ≡ role_tool
    → a.tool_call_id ≡ k
    → Filed t
    → Filed (put k a t)
put-Filed k a t r i filed id m e = ground (arith, filed id m, same_iff k id)

pub put-Held :
    (k id : Text) (a : Message) (t : List (Text × Message)) → Held t id → Held (put k a t) id
put-Held k id a t held = elim (Bool-cases (same k id)) [
  | inl here ↦ rw here (a, refl)
  | inr other ↦ rw other held
]

pub put-Held_self : (k : Text) (a : Message) (t : List (Text × Message)) → Held (put k a t) k
put-Held_self k a t = (a, ground arith)

role_tool_lem : role_tool ≢ []
role_tool_lem e = cc

pub found-Filed :
    (id : Text) (t : List (Text × Message)) (m : Message)
    → Filed t
    → find id t ≡ some m
    → found id t ≡ some m
found-Filed id t m filed e =
    option_both (λ o. o ≡ some m) (find id t) (λ none_found. absurd cc)
      (λ a q.
        let role = same_ne a.role [] (λ empty. role_tool_lem (sym (filed id a q).0 ∙ empty)) in
        ground arith)

-- The wave goes on: no fatal error and nothing parked.
abbrev pub Calm : WaveState → Type 0
Calm ws = (ws.fatal_err ≡ none) × (ws.pending ≡ [])

Effect-Filed :
    (tc : PendingToolCall) (a b : WaveState) → Effect tc a b → Filed a.tool_msgs → Filed b.tool_msgs
Effect-Filed tc a b (answered m r i t p f) filed =
    subst Filed (sym t) (put-Filed tc.id m a.tool_msgs r i filed)
Effect-Filed tc a b (deferred t p f) filed = subst Filed (sym t) filed
Effect-Filed tc a b (aborted v t p f) filed = subst Filed (sym t) filed

Effect-Held :
    (tc : PendingToolCall) (a b : WaveState) (id : Text)
    → Effect tc a b
    → Held a.tool_msgs id
    → Held b.tool_msgs id
Effect-Held tc a b id (answered m r i t p f) held =
    subst (λ x. Held x id) (sym t) (put-Held tc.id id m a.tool_msgs held)
Effect-Held tc a b id (deferred t p f) held = subst (λ x. Held x id) (sym t) held
Effect-Held tc a b id (aborted v t p f) held = subst (λ x. Held x id) (sym t) held

snoc-Nonempty : (xs : List PendingToolCall) (x : PendingToolCall) → xs ++ x ∷ [] ≢ []
snoc-Nonempty [] x e = cc
snoc-Nonempty (y ∷ xs) x e = cc

Effect-Calm :
    (tc : PendingToolCall) (a b : WaveState)
    → Effect tc a b
    → Calm b
    → Calm a × Held b.tool_msgs tc.id
Effect-Calm tc a b (answered m r i t p f) (calm, empty) = (
  (sym f ∙ calm, sym p ∙ empty),
  subst (λ x. Held x tc.id) (sym t) (put-Held_self tc.id m a.tool_msgs),
)
Effect-Calm tc a b (deferred t p f) (calm, empty) =
    absurd (snoc-Nonempty a.pending tc (sym p ∙ empty))
Effect-Calm tc a b (aborted v t p f) (calm, empty) = absurd cc

-- A wave with a fatal error starts no further call.
execute-stopped :
    (h : Host) (tc : PendingToolCall) (w : World) (v : Verdict)
    → w.ws.fatal_err ≡ some v
    → execute_tool_call h tc w ≡ w
unfolding execute_tool_call
execute-stopped h tc w v e =
    option_both (λ (x : World). x ≡ w) w.ws.fatal_err (λ calm. absurd cc) (λ _ _. refl)

pub run_calls-Filed :
    (h : Host) (order : List PendingToolCall) (w : World)
    → Filed w.ws.tool_msgs
    → Filed (run_calls h order w).ws.tool_msgs
unfolding run_calls
run_calls-Filed h [] w filed = filed
run_calls-Filed h (tc ∷ order) w filed =
    run_calls-Filed h order (execute_tool_call h tc w) (elim (Option-cases w.ws.fatal_err) [
      | inl calm ↦ Effect-Filed tc _ _ (execute-Effect h tc w calm) filed
      | inr (v, e) ↦
          subst (λ (x : World). Filed x.ws.tool_msgs) (sym (execute-stopped h tc w v e)) filed
    ])

pub run_calls-Held :
    (h : Host) (order : List PendingToolCall) (w : World) (id : Text)
    → Held w.ws.tool_msgs id
    → Held (run_calls h order w).ws.tool_msgs id
unfolding run_calls
run_calls-Held h [] w id held = held
run_calls-Held h (tc ∷ order) w id held =
    run_calls-Held h order (execute_tool_call h tc w) id (elim (Option-cases w.ws.fatal_err) [
      | inl calm ↦ Effect-Held tc _ _ id (execute-Effect h tc w calm) held
      | inr (v, e) ↦
          subst (λ (x : World). Held x.ws.tool_msgs id) (sym (execute-stopped h tc w v e)) held
    ])

-- If the wave is calm behind all calls, then it is behind each one, and each has an entry.
execute-Calm :
    (h : Host) (tc : PendingToolCall) (w : World)
    → Calm (execute_tool_call h tc w).ws
    → Calm w.ws × Held (execute_tool_call h tc w).ws.tool_msgs tc.id
execute-Calm h tc w calm = elim (Option-cases w.ws.fatal_err) [
  | inl before ↦ Effect-Calm tc _ _ (execute-Effect h tc w before) calm
  | inr (v, e) ↦ let stopped = execute-stopped h tc w v e in absurd cc
]

pub run_calls-Calm :
    (h : Host) (order : List PendingToolCall) (w : World)
    → Calm (run_calls h order w).ws
    → Calm w.ws
      × ((id : Text)
          → has_key (ids_of order) id ≡ true
          → Held (run_calls h order w).ws.tool_msgs id)
unfolding run_calls
run_calls-Calm h [] w calm = (calm, λ id e. cc)
run_calls-Calm h (tc ∷ order) w calm =
    let (mid, rest) = run_calls-Calm h order (execute_tool_call h tc w) calm in
    let (start, here) = execute-Calm h tc w mid in
    (
      start,
      λ id e. elim (Bool-cases (same tc.id id)) [
        | inl this ↦
            subst (λ i. Held (run_calls h order (execute_tool_call h tc w)).ws.tool_msgs i)
              ((same_iff tc.id id).0 this)
              (run_calls-Held h order (execute_tool_call h tc w) tc.id here)
        | inr other ↦ rest id (ground arith)
      ],
    )
