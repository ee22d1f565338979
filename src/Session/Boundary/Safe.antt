-- ===== src/Session/Boundary/Safe.antt =====
-- The cut of a paired history.
use gopheragent.Base.{
  In, All-In, ℕ, zero, suc, ◌+◌, ◌-◌, ◌<◌, ◌≤◌, ◌≡◌, sym, ap, subst, ◌∙◌, inl, inr, false, List,
  none, some, arith, Bool-cases, dec_lt, min, length, take, drop, get_elem?, same_iff,
}
use mathlib.Core.Bool.{true≢false}
use gopheragent.History.{Message, ToolCall, has_role, role_tool, role_assistant}
use gopheragent.Request.Dangling.Paired.{Replied, Paired}
use gopheragent.Session.Boundary.{group_end, next_end, snap_to_safe_boundary}
use gopheragent.Session.Boundary.Stop.{
  Stopped, snap_to_safe_boundary-Stopped, Course, snap_to_safe_boundary-Course,
}
use gopheragent.Session.Boundary.Positions.{
  RepliedAt, Replied-At, At-Replied, Paired-take, get-drop,
}
use gopheragent.Session.Boundary.Scan.{
  tool_at, holds_tool, holds_turn, Settled, some-none, assistant-calls, calls-last, tool-last,
  turn_at-drop, get-below, Settled-on, group_end-Answered, assistant_before-found,
}

module _ (msgs : List Message) (settled : Settled msgs) (e : ℕ) (stop : next_end msgs e ≡ none)
    (i : ℕ) (m : Message) (c : ToolCall) (at : get_elem? msgs i ≡ some m)
    (a : m.role ≡ role_assistant) (inside : In c m.tool_calls) where
  -- A reply behind the cut has another one before it.
  reply-before :
      (n k : ℕ)
      → i + suc (suc n) ≡ suc e
      → suc n ≤ k
      → RepliedAt c.id (drop (suc i) msgs) k
      → (j : ℕ) × ((j < suc n) × RepliedAt c.id (drop (suc i) msgs) j)
  reply-before n k sum behind (r, (reply, (replies, free))) =
      by_tool (get-below (drop (suc i) msgs) k n r reply (omega arith))
    where
      last_at : (l : Message) → get_elem? (drop (suc i) msgs) n ≡ some l → get_elem? msgs e ≡ some l
      last_at l here =
          ap (get_elem? msgs) {x = e} {y = suc i + n} (omega arith)
          ∙ sym (get-drop (suc i) n msgs)
          ∙ here

      clash : tool_at msgs (suc i + n) ≡ false → ⊥
      clash quiet = true≢false (
          sym ((same_iff r.role role_tool).1 replies.0)
          ∙ sym (ap holds_tool reply)
          ∙ ap holds_tool (get-drop (suc i) k msgs)
          ∙ subst (λ j. tool_at msgs j ≡ false) {x = suc i + n + (k - n)} (omega arith)
              (Settled-on msgs settled (k - n) (suc i + n)
                (λ q low high. turn_at-drop msgs i k q free (omega arith) (omega arith)) quiet))

      answered :
          group_end msgs e (some i) ≡ none
          → (j : ℕ) × ((j < suc n) × RepliedAt c.id (drop (suc i) msgs) j)
      answered whole =
          let (j, (low, (x, (here, (tool, id))))) =
            group_end-Answered msgs e i (suc n) m c sum at inside whole in
          (
            j,
            (
              low,
              (
                x,
                (
                  here,
                  (
                    (
                      (same_iff x.role role_tool).0 tool,
                      λ empty. replies.1 (replies.2 ∙ sym id ∙ empty),
                      id,
                    ),
                    λ p h. free p (omega arith),
                  ),
                ),
              ),
            ),
          )

      by_tool :
          (l : Message) × (get_elem? (drop (suc i) msgs) n ≡ some l)
          → (j : ℕ) × ((j < suc n) × RepliedAt c.id (drop (suc i) msgs) j)
      by_tool (l, here) = elim (Bool-cases (has_role role_tool l)) [
        | inl tool ↦
            let kept =
              tool-last msgs e stop l (last_at l here)
                (sym (ap holds_turn here) ∙ free n (omega arith)) tool in
            elim (assistant_before-found msgs i m n e at (assistant-calls m c a inside)
              (omega arith) (λ p low high. turn_at-drop msgs i k p free low (omega arith))) [
                | inl found ↦ answered (sym (ap (group_end msgs e) found) ∙ kept)
                | inr lost ↦ absurd (some-none (sym (ap (group_end msgs e) lost) ∙ kept))
              ]
        | inr other ↦
            absurd
              (clash (sym (ap holds_tool (get-drop (suc i) n msgs)) ∙ ap holds_tool here ∙ other))
      ]

  kept :
      (n : ℕ)
      → i + suc n ≡ suc e
      → Replied c.id (drop (suc i) msgs)
      → Replied c.id (take n (drop (suc i) msgs))
  kept zero sum h = absurd (
      calls-last msgs e stop m (ap (get_elem? msgs) {x = e} {y = i} (omega arith) ∙ at)
        (assistant-calls m c a inside))
  kept (suc n) sum h =
      let (k, reply) = Replied-At c.id (drop (suc i) msgs) h in
      elim (dec_lt k (suc n)) [
        | yes low ↦ At-Replied c.id (drop (suc i) msgs) k (suc n) low reply
        | no high ↦
            let (j, (low, before)) = reply-before n k sum (omega arith) reply in
            At-Replied c.id (drop (suc i) msgs) j (suc n) low before
      ]

Stopped-Paired :
    (msgs : List Message) (end r : ℕ)
    → Settled msgs
    → Paired msgs
    → Stopped msgs end r
    → Paired (take r msgs)
Stopped-Paired msgs end r settled h (bound, inl none_left) =
    subst (λ n. Paired (take n msgs)) (sym none_left) tt
Stopped-Paired msgs end r settled h (bound, inr (e, (last, stop))) =
    Paired-take r msgs h (λ i n m sum at a.
      All-In m.tool_calls (λ c inside. kept msgs settled e stop i m c at a inside n (omega arith)))

-- If every call of a history is replied to before the next turn, and no tool message stands right
-- behind a message that is neither a turn nor a tool message, then the part of it before the safe
-- cut has no call without a reply, wherever the cut was asked for; and the cut is no further than
-- that place and the end, and is where the rounds of the loop lead, each of which lowers the end
-- until one stops, never where the rounds run out.
pub snap_to_safe_boundary-Paired :
    (msgs : List Message) (at : ℕ)
    → Settled msgs
    → Paired msgs
    → (snap_to_safe_boundary msgs at ≤ min at (length msgs))
      × (Paired (take (snap_to_safe_boundary msgs at) msgs)
          × Course msgs (min at (length msgs)) (snap_to_safe_boundary msgs at))
snap_to_safe_boundary-Paired msgs at settled h =
    let stopped = snap_to_safe_boundary-Stopped msgs at in
    (
      stopped.0,
      (
        Stopped-Paired msgs (min at (length msgs)) _ settled h stopped,
        snap_to_safe_boundary-Course msgs at,
      ),
    )
