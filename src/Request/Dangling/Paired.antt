-- ===== src/Request/Dangling/Paired.antt =====
-- What `hasDanglingToolCalls` decides, stated without its loops.
use gopheragent.Base.{
  ℕ, zero, suc, ◌≡◌, ◌≢◌, refl, ◌⊎◌, inl, inr, ◌↔◌, true, false, List, [], ◌∷◌, sym, ◌∙◌,
  text_discrete, arith, Text, All, length, drop, Bool-cases,
}
use mathlib.Core.Bool.{true≢false}
use gopheragent.History.{Message, ToolCall, role_tool, role_assistant}
use gopheragent.Request.Dangling.{
  starts_turn, block, is_empty, responded, has_id, unanswered, is_call_turn, dangling_from,
  has_dangling_tool_calls,
}

-- A tool message that names the call `id`, which is not empty.
abbrev pub Replies : Text → Message → Type 0
Replies id m = (m.role ≡ role_tool) × (m.tool_call_id ≢ []) × (m.tool_call_id ≡ id)

-- It stands before the next turn.
abbrev pub Replied : Text → List Message → Type 0
Replied id [] = ⊥
Replied id (m ∷ ms) = (starts_turn m ≡ false) × (Replies id m ⊎ Replied id ms)

-- Every call of an assistant turn is replied to before the next turn.
abbrev pub Paired : List Message → Type 0
Paired [] = Unit {0}
Paired (m ∷ ms) = (m.role ≡ role_assistant → All (λ c. Replied c.id ms) m.tool_calls) × Paired ms

is_empty-false : (t : Text) → (is_empty t ≡ false) ↔ (t ≢ [])
is_empty-false [] = ground arith
is_empty-false (c ∷ t) = ground arith

pub Replied-iff :
    (id : Text) (ms : List Message) → (has_id (responded (block ms)) id ≡ true) ↔ Replied id ms
unfolding responded block
Replied-iff id [] = ground arith
Replied-iff id (m ∷ ms) = ground (arith, Replied-iff id ms, is_empty-false m.tool_call_id)

unanswered_iff :
    (ms : List Message) (cs : List ToolCall)
    → (unanswered (responded (block ms)) cs ≡ false) ↔ All (λ c. Replied c.id ms) cs
unanswered_iff ms [] = ground arith
unanswered_iff ms (c ∷ cs) = ground (arith, Replied-iff c.id ms, unanswered_iff ms cs)

-- The replies that the loops skip open no turn.
Paired-behind : (ms : List Message) → Paired (drop (length (block ms)) ms) ↔ Paired ms
unfolding block
Paired-behind [] = ground arith
Paired-behind (m ∷ ms) = ground (arith, Paired-behind ms)

-- What the head of `Paired` asks, by the test of the code.
pub is_call_turn-cases :
    (m : Message) (ms : List Message)
    → ((is_call_turn m ≡ true)
        × ((m.role ≡ role_assistant → All (λ c. Replied c.id ms) m.tool_calls)
            ↔ All (λ c. Replied c.id ms) m.tool_calls))
      ⊎ ((is_call_turn m ≡ false)
          × (m.role ≡ role_assistant → All (λ c. Replied c.id ms) m.tool_calls))
is_call_turn-cases m ms = by_calls m.tool_calls refl
  where
    by_calls :
        (cs : List ToolCall)
        → m.tool_calls ≡ cs
        → ((is_call_turn m ≡ true)
            × ((m.role ≡ role_assistant → All (λ c. Replied c.id ms) m.tool_calls)
                ↔ All (λ c. Replied c.id ms) m.tool_calls))
          ⊎ ((is_call_turn m ≡ false)
              × (m.role ≡ role_assistant → All (λ c. Replied c.id ms) m.tool_calls))
    by_calls [] e = inr (ground arith, λ _. rw e tt)
    by_calls (c ∷ cs) e = elim (text_discrete m.role role_assistant) [
      | yes a ↦ inl (ground arith, (λ f. f a, λ h _. h))
      | no n ↦ inr (ground arith, λ a. absurd (n a))
    ]

dangling_from_iff : (k : ℕ) (ms : List Message) → (dangling_from k ms ≡ false) ↔ Paired (drop k ms)
unfolding dangling_from
dangling_from_iff zero [] = ground arith
dangling_from_iff (suc k) [] = ground arith
dangling_from_iff (suc k) (m ∷ ms) = dangling_from_iff k ms
dangling_from_iff zero (m ∷ ms) = elim (is_call_turn-cases m ms) [
  | inl (turn, head) ↦ rw turn (
      let asked = unanswered_iff ms m.tool_calls in
      let behind = dangling_from_iff (length (block ms)) ms in
      let skipped = Paired-behind ms in
      elim (Bool-cases (unanswered (responded (block ms)) m.tool_calls)) [
        | inl open_call ↦
            rw open_call (λ e. cc, λ p. absurd (true≢false (sym open_call ∙ asked.1 (head.0 p.0))))
        | inr closed ↦
            rw closed (
              λ e. (head.1 (asked.0 closed), skipped.0 (behind.0 e)),
              λ p. behind.1 (skipped.1 p.1),
            )
      ])
  | inr (other, head) ↦
      let next = dangling_from_iff zero ms in rw other (λ e. (head, next.0 e), λ p. next.1 p.1)
]

-- `hasDanglingToolCalls` says false exactly when every call of every assistant turn is replied to,
-- by a tool message with its nonempty ID, before the next user or assistant turn.
pub has_dangling_iff : (ms : List Message) → (has_dangling_tool_calls ms ≡ false) ↔ Paired ms
unfolding has_dangling_tool_calls
has_dangling_iff ms = dangling_from_iff zero ms
