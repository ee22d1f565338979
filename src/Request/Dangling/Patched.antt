-- ===== src/Request/Dangling/Patched.antt =====
-- What `patchDanglingToolCalls` returns: the replies of its calls, and the messages of the input in
-- it.
use gopheragent.Base.{
  ℕ, zero, suc, ◌≡◌, ◌≢◌, refl, sym, ◌∙◌, ◌⊎◌, inl, inr, true, false, List, [], ◌∷◌, ◌++◌, arith,
  Text, All, All-map, length, drop, Bool-cases, text_discrete,
}
use mathlib.Core.Bool.{true≢false}
use gopheragent.History.{Message, ToolCall, role_assistant}
use gopheragent.Request.Dangling.{
  starts_turn, block, responded, has_id, is_call_turn, has_dangling_tool_calls, cancelled,
  synthetic, rebuild, patch_dangling_tool_calls,
}
use gopheragent.Request.Dangling.Paired.{
  Replied, Paired, Replied-iff, is_call_turn-cases, has_dangling_iff,
}

-- Every call of the transcript has an ID.
abbrev pub CallsNamed : List Message → Type 0
CallsNamed = All λ m. All (λ (c : ToolCall). c.id ≢ []) m.tool_calls

cancelled_is_no_turn : (c : ToolCall) → starts_turn (cancelled c) ≡ false
unfolding text_discrete
cancelled_is_no_turn c = refl

Replied-block :
    (id : Text) (ms xs : List Message) → Replied id ms ⊎ Replied id xs → Replied id (block ms ++ xs)
unfolding block
Replied-block id [] xs h = ground arith
Replied-block id (m ∷ ms) xs h = elim (Bool-cases (starts_turn m)) [
  | inl turn ↦ rw turn (elim h [ inl r ↦ absurd (true≢false (sym turn ∙ r.0)) | inr r ↦ r ])
  | inr reply ↦ rw reply (
    reply,
    elim h [
      | inl r ↦ elim r.1 [
        | inl here ↦ inl here
        | inr later ↦ inr (Replied-block id ms xs (inl later))
      ]
      | inr r ↦ inr (Replied-block id ms xs (inr r))
    ],
  )
]

no_assistant : (m : Message) → starts_turn m ≡ false → m.role ≢ role_assistant
no_assistant m h e = ground arith

Paired-block : (ms xs : List Message) → Paired xs → Paired (block ms ++ xs)
unfolding block
Paired-block [] xs h = h
Paired-block (m ∷ ms) xs h = elim (Bool-cases (starts_turn m)) [
  | inl turn ↦ rw turn h
  | inr reply ↦ rw reply (λ e. absurd (no_assistant m reply e), Paired-block ms xs h)
]

abbrev Met : List Text → List Message → ToolCall → Type 0
Met ids ms c = (has_id ids c.id ≡ true) ⊎ Replied c.id ms

Met-behind :
    (ids : List Text) (c d : ToolCall) (ms : List Message)
    → Met ids ms d
    → Met ids (cancelled c ∷ ms) d
Met-behind ids c d ms (inl old) = inl old
Met-behind ids c d ms (inr later) = inr (cancelled_is_no_turn c, inr later)

Met-cons :
    (ids : List Text) (c : ToolCall) (cs : List ToolCall) (xs : List Message) (d : ToolCall)
    → Met ids (synthetic ids cs ++ xs) d
    → Met ids (synthetic ids (c ∷ cs) ++ xs) d
unfolding synthetic
Met-cons ids c cs xs d m = elim (Bool-cases (has_id ids c.id)) [
  | inl old ↦ rw old m
  | inr new ↦ rw new (Met-behind ids c d (synthetic ids cs ++ xs) m)
]

Met-head :
    (ids : List Text) (c : ToolCall) (cs : List ToolCall) (xs : List Message)
    → c.id ≢ []
    → Met ids (synthetic ids (c ∷ cs) ++ xs) c
unfolding synthetic
Met-head ids c cs xs named = elim (Bool-cases (has_id ids c.id)) [
  | inl old ↦ inl old
  | inr new ↦ rw new (inr (cancelled_is_no_turn c, inl (refl, named, refl)))
]

-- Each call is among the replied ones, or the synthetic reply for it stands in front of `xs`.
All-Met :
    (ids : List Text) (xs : List Message) (cs : List ToolCall)
    → All (λ (c : ToolCall). c.id ≢ []) cs
    → All (Met ids (synthetic ids cs ++ xs)) cs
All-Met ids xs [] named = tt
All-Met ids xs (c ∷ cs) named =
    (Met-head ids c cs xs named.0, All-map cs (Met-cons ids c cs xs) (All-Met ids xs cs named.1))

Paired-synthetic :
    (ids : List Text) (cs : List ToolCall) (xs : List Message)
    → Paired xs
    → Paired (synthetic ids cs ++ xs)
unfolding synthetic
Paired-synthetic ids [] xs h = h
Paired-synthetic ids (c ∷ cs) xs h = elim (Bool-cases (has_id ids c.id)) [
  | inl old ↦ rw old (Paired-synthetic ids cs xs h)
  | inr new ↦ rw new (
    λ e. absurd (no_assistant (cancelled c) (cancelled_is_no_turn c) e),
    Paired-synthetic ids cs xs h,
  )
]

rebuild-Paired : (k : ℕ) (ms : List Message) → CallsNamed ms → Paired (rebuild k ms)
unfolding rebuild
rebuild-Paired k [] named = tt
rebuild-Paired (suc k) (m ∷ ms) named = rebuild-Paired k ms named.1
rebuild-Paired zero (m ∷ ms) named = elim (is_call_turn-cases m ms) [
  | inl (turn, _) ↦
      let ids = responded (block ms) in
      let behind = rebuild (length (block ms)) ms in
      let rest = synthetic ids m.tool_calls ++ behind in
      rw turn (
        λ _.
            All-map m.tool_calls
              (λ c r.
                Replied-block c.id ms rest
                  (elim r [ inl old ↦ inl ((Replied-iff c.id ms).0 old) | inr new ↦ inr new ]))
              (All-Met ids behind m.tool_calls named.0),
        Paired-block ms rest (
            Paired-synthetic ids m.tool_calls behind
              (rebuild-Paired (length (block ms)) ms named.1)),
      )
  | inr (other, head) ↦
      rw other (λ e. no_calls m.tool_calls refl other e, rebuild-Paired zero ms named.1)
]
  where
    no_calls :
        (cs : List ToolCall)
        → m.tool_calls ≡ cs
        → is_call_turn m ≡ false
        → m.role ≡ role_assistant
        → All (λ c. Replied c.id (rebuild zero ms)) m.tool_calls
    no_calls [] e other a = rw e tt
    no_calls (c ∷ cs) e other a = absurd (ground arith)

-- If every call has an ID, then after `patchDanglingToolCalls` every call of every assistant turn is
-- replied to before the next turn.
pub patch-Paired : (ms : List Message) → CallsNamed ms → Paired (patch_dangling_tool_calls ms)
unfolding patch_dangling_tool_calls
patch-Paired ms named = elim (Bool-cases (has_dangling_tool_calls ms)) [
  | inl open_call ↦ rw open_call (rebuild-Paired zero ms named)
  | inr closed ↦ rw closed ((has_dangling_iff ms).0 closed)
]

-- A second pass changes nothing.
pub patch_idempotent :
    (ms : List Message)
    → CallsNamed ms
    → patch_dangling_tool_calls (patch_dangling_tool_calls ms) ≡ patch_dangling_tool_calls ms
patch_idempotent ms named = settled (patch_dangling_tool_calls ms) (patch-Paired ms named)
  where
    settled : (xs : List Message) → Paired xs → patch_dangling_tool_calls xs ≡ xs
    settled xs p = unfold patch_dangling_tool_calls in rw ((has_dangling_iff xs).1 p)

-- `out` is `ms` with synthetic replies put in between.
pub data Extends : List Message → List Message → Type 0 where
  done : Extends [] []
  keep : {m : Message} {ms out : List Message} → Extends ms out → Extends (m ∷ ms) (m ∷ out)
  insert : (c : ToolCall) {ms out : List Message} → Extends ms out → Extends ms (cancelled c ∷ out)

Extends-refl : (ms : List Message) → Extends ms ms
Extends-refl [] = done
Extends-refl (m ∷ ms) = keep (Extends-refl ms)

Extends-block :
    (ms out : List Message)
    → Extends (drop (length (block ms)) ms) out
    → Extends ms (block ms ++ out)
unfolding block
Extends-block [] out h = h
Extends-block (m ∷ ms) out h = elim (Bool-cases (starts_turn m)) [
  | inl turn ↦ rw turn (rw turn at h)
  | inr reply ↦ rw reply (keep (Extends-block ms out (rw reply at h)))
]

Extends-synthetic :
    (ids : List Text) (cs : List ToolCall) (ms out : List Message)
    → Extends ms out
    → Extends ms (synthetic ids cs ++ out)
unfolding synthetic
Extends-synthetic ids [] ms out h = h
Extends-synthetic ids (c ∷ cs) ms out h = elim (Bool-cases (has_id ids c.id)) [
  | inl old ↦ rw old (Extends-synthetic ids cs ms out h)
  | inr new ↦ rw new (insert c (Extends-synthetic ids cs ms out h))
]

rebuild-Extends : (k : ℕ) (ms : List Message) → Extends (drop k ms) (rebuild k ms)
unfolding rebuild
rebuild-Extends zero [] = done
rebuild-Extends (suc k) [] = done
rebuild-Extends (suc k) (m ∷ ms) = rebuild-Extends k ms
rebuild-Extends zero (m ∷ ms) = elim (Bool-cases (is_call_turn m)) [
  | inl turn ↦ rw turn (
      keep (
        Extends-block ms _ (
          Extends-synthetic (responded (block ms)) m.tool_calls _ _
            (rebuild-Extends (length (block ms)) ms))))
  | inr other ↦ rw other (keep (rebuild-Extends zero ms))
]

-- `patchDanglingToolCalls` keeps every message in its place and adds synthetic replies only, for
-- every transcript.
pub patch-Extends : (ms : List Message) → Extends ms (patch_dangling_tool_calls ms)
unfolding patch_dangling_tool_calls
patch-Extends ms = elim (Bool-cases (has_dangling_tool_calls ms)) [
  | inl open_call ↦ rw open_call (rebuild-Extends zero ms)
  | inr closed ↦ rw closed (Extends-refl ms)
]
