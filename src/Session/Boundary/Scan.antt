-- ===== src/Session/Boundary/Scan.antt =====
-- What a round of the loop over the cut finds.
use gopheragent.Base.{
  In, ℕ, zero, suc, ◌+◌, ◌-◌, ◌<◌, ◌≤◌, ◌≡◌, refl, sym, ap, subst, ◌∙◌, ◌⊎◌, inl, inr, Bool, true,
  false, ◌&&◌, ◌||◌, List, [], ◌∷◌, Option, none, some, arith, if_both, if◌then◌else◌, take, drop,
  get_elem?, Text, same_iff,
}
use mathlib.Core.Bool.{true≢false}
use gopheragent.History.{Message, ToolCall, has_role, role_tool, role_assistant, role_user}
use gopheragent.Request.Dangling.{starts_turn}
use gopheragent.Session.Boundary.{
  calls_tools, ends_scan, assistant_before, still_required, ids_of, calls_at, group_end, next_end,
}
use gopheragent.Session.Boundary.Positions.{
  turn_at, In-ids, Answered, still_required-Answered, drop-take, get-take, get-drop, none-some,
}

abbrev pub tool_at : List Message → ℕ → Bool
tool_at ms i = elim (get_elem? ms i) [ none ↦ false | some m ↦ has_role role_tool m ]

abbrev pub holds_tool : Option Message → Bool
holds_tool o = elim o [ none ↦ false | some m ↦ has_role role_tool m ]

abbrev pub holds_turn : Option Message → Bool
holds_turn o = elim o [ none ↦ false | some m ↦ starts_turn m ]

-- No tool message stands right behind a message that is neither a turn nor a tool message.
abbrev pub Settled : List Message → Type 0
Settled msgs =
    (p : ℕ) → turn_at msgs p ≡ false → tool_at msgs p ≡ false → tool_at msgs (suc p) ≡ false

pub some-none : {i : ℕ} → some i ≡ none → ⊥
some-none q = true≢false (ap (λ o. elim o [ none ↦ false | some _ ↦ true ]) q)

quiet-calls : (m : Message) → starts_turn m ≡ false → calls_tools m ≡ false
quiet-calls m h = by_role (has_role role_assistant m) (has_role role_user m) h
  where
    by_role :
        (b c : Bool)
        → (b || c) ≡ false
        → (b && elim m.tool_calls [ [] ↦ false | ◌∷◌ _ _ ↦ true ]) ≡ false
    by_role true c h = absurd (true≢false h)
    by_role false c h = refl

pub assistant-calls :
    (m : Message) (c : ToolCall)
    → m.role ≡ role_assistant
    → In c m.tool_calls
    → calls_tools m ≡ true
assistant-calls m c a i = rw ((same_iff m.role role_assistant).1 a) (some_call m.tool_calls i)
  where
    some_call : (cs : List ToolCall) → In c cs → elim cs [ [] ↦ false | ◌∷◌ _ _ ↦ true ] ≡ true
    some_call [] h = absurd h
    some_call (d ∷ cs) h = refl

module _ (msgs : List Message) (e : ℕ) (stop : next_end msgs e ≡ none) where
  -- The cut stops behind no call.
  pub calls-last : (m : Message) → get_elem? msgs e ≡ some m → calls_tools m ≡ true → ⊥
  unfolding next_end
  calls-last m at calls = some-none (sym (moved at calls) ∙ stop)
    where
      moved : get_elem? msgs e ≡ some m → calls_tools m ≡ true → next_end msgs e ≡ some e
      moved at calls = rw (next_end, at, calls) refl

  pub tool-last :
      (m : Message)
      → get_elem? msgs e ≡ some m
      → starts_turn m ≡ false
      → has_role role_tool m ≡ true
      → group_end msgs e (assistant_before msgs e) ≡ none
  unfolding next_end
  tool-last m at quiet tool = sym (moved at (quiet-calls m quiet) tool) ∙ stop
    where
      moved :
          get_elem? msgs e ≡ some m
          → calls_tools m ≡ false
          → has_role role_tool m ≡ true
          → next_end msgs e ≡ group_end msgs e (assistant_before msgs e)
      moved at calls tool = rw (next_end, at, calls, tool) refl

abbrev scanned : List Message → ℕ → Option Message → Option ℕ
scanned msgs j none = assistant_before msgs j
scanned msgs j (some x) =
    if calls_tools x then some j else if ends_scan x then none else assistant_before msgs j

-- The scan for the assistant message finds the one behind which no turn starts, or is stopped.
pub assistant_before-found :
    (msgs : List Message) (i : ℕ) (m : Message) (d j : ℕ)
    → get_elem? msgs i ≡ some m
    → calls_tools m ≡ true
    → j ≡ suc (i + d)
    → ((p : ℕ) → i < p → p < j → turn_at msgs p ≡ false)
    → (assistant_before msgs j ≡ some i) ⊎ (assistant_before msgs j ≡ none)
unfolding assistant_before
assistant_before-found msgs i m d zero at calls e free = absurd (omega arith)
assistant_before-found msgs i m zero (suc j) at calls e free = inl (
    rw (assistant_before, ap (get_elem? msgs) {x = j} {y = i} (omega arith) ∙ at, calls)
      (ap some (omega arith)))
assistant_before-found msgs i m (suc d) (suc j) at calls e free =
    let further =
      assistant_before-found msgs i m d j at calls (omega arith)
        (λ p low high. free p low (omega arith)) in
    by_message (get_elem? msgs j) refl further
  where
    by_message :
        (o : Option Message)
        → get_elem? msgs j ≡ o
        → (assistant_before msgs j ≡ some i) ⊎ (assistant_before msgs j ≡ none)
        → (scanned msgs j o ≡ some i) ⊎ (scanned msgs j o ≡ none)
    by_message none q further = further
    by_message (some x) q further =
        let quiet = quiet-calls x (
          sym (ap (λ o. elim o [ none ↦ false | some y ↦ starts_turn y ]) q)
          ∙ free j (omega arith) (omega arith)) in
        if_both (λ (o : Option ℕ). (o ≡ some i) ⊎ (o ≡ none)) (calls_tools x)
          (λ hit. absurd (true≢false (sym hit ∙ quiet)))
          (λ _.
            if_both (λ (o : Option ℕ). (o ≡ some i) ⊎ (o ≡ none)) (ends_scan x) (λ _. inr refl)
              (λ _. further))

-- Behind a message that is neither a turn nor a tool message no tool message comes before the
-- next turn.
pub Settled-on :
    (msgs : List Message)
    → Settled msgs
    → (d p : ℕ) → ((q : ℕ) → p ≤ q → q ≤ p + d → turn_at msgs q ≡ false)
    → tool_at msgs p ≡ false
    → tool_at msgs (p + d) ≡ false
Settled-on msgs settled zero p free h = subst (λ j. tool_at msgs j ≡ false) {x = p} (omega arith) h
Settled-on msgs settled (suc d) p free h =
    subst (λ j. tool_at msgs j ≡ false) {x = suc p + d} (omega arith)
      (Settled-on msgs settled d (suc p) (λ q low high. free q (omega arith) (omega arith))
        (settled p (free p (omega arith) (omega arith)) h))

pub turn_at-drop :
    (msgs : List Message) (i k p : ℕ)
    → ((q : ℕ) → q ≤ k → turn_at (drop (suc i) msgs) q ≡ false)
    → i < p
    → p ≤ suc i + k
    → turn_at msgs p ≡ false
turn_at-drop msgs i k p free low high =
    subst (λ j. turn_at msgs j ≡ false) {x = suc i + (p - suc i)} (omega arith)
      (sym (ap holds_turn (get-drop (suc i) (p - suc i) msgs)) ∙ free (p - suc i) (omega arith))

-- Below the place of a message there are messages.
pub get-below :
    (ms : List Message) (k j : ℕ) (m : Message)
    → get_elem? ms k ≡ some m
    → j ≤ k
    → (l : Message) × (get_elem? ms j ≡ some l)
get-below [] k j m at h = absurd (none-some at)
get-below (x ∷ ms) k zero m at h = (x, refl)
get-below (x ∷ ms) zero (suc j) m at h = absurd (omega arith)
get-below (x ∷ ms) (suc k) (suc j) m at h = get-below ms k j m at (omega arith)

calls_at-some :
    (msgs : List Message) (i : ℕ) (m : Message)
    → get_elem? msgs i ≡ some m
    → calls_at msgs i ≡ m.tool_calls
calls_at-some msgs i m at = ap (λ o. elim o [ none ↦ [] | some x ↦ x.tool_calls ]) at

-- A group that is kept has an answer to each of its calls before the cut.
pub group_end-Answered :
    (msgs : List Message) (e i n : ℕ) (m : Message) (c : ToolCall)
    → i + suc n ≡ suc e
    → get_elem? msgs i ≡ some m
    → In c m.tool_calls
    → group_end msgs e (some i) ≡ none
    → (k : ℕ) × ((k < n) × Answered c.id (drop (suc i) msgs) k)
group_end-Answered msgs e i n m c sum at inside whole =
    let (k, (x, (found, rest))) =
      still_required-Answered (ids_of m.tool_calls) (take n (drop (suc i) msgs)) c.id
        (ap (λ cs. still_required (ids_of cs) (take n (drop (suc i) msgs)))
            (sym (calls_at-some msgs i m at))
          ∙ ap (still_required (ids_of (calls_at msgs i)))
              (sym (drop-take (suc i) n msgs (suc e) (omega arith)))
          ∙ emptied (still_required (ids_of (calls_at msgs i)) (drop (suc i) (take (suc e) msgs)))
              whole)
        (In-ids c m.tool_calls inside) in
    let (low, here) = get-take n k (drop (suc i) msgs) x found in (k, (low, (x, (here, rest))))
  where
    emptied :
        (required : List Text)
        → elim required [ [] ↦ none | ◌∷◌ _ _ ↦ some i ] ≡ none
        → required ≡ []
    emptied [] h = refl
    emptied (id ∷ ids) h = absurd (some-none h)
