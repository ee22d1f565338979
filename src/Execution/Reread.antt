-- ===== src/Execution/Reread.antt =====
-- What Resume reads back from the transcript that recordToolTurn left.
use mathlib.Core.Bool.{true≢false}
use gopheragent.Base.{
  ℕ, suc, ◌≡◌, ◌≢◌, refl, sym, ◌∙◌, subst, ap, Bool, true, false, not, ◌&&◌, List, [], ◌∷◌, ◌++◌,
  map, filter_by, Option, none, some, Text, same, same_iff, same_refl, if◌then◌else◌, if_both,
  option_both, Option-cases, Bool-cases, drop, get_elem?, length, arith, find, All, All-map,
  text_discrete, append_assoc, inl, inr,
}
use gopheragent.History.{Message, has_role, role_tool}
use gopheragent.Scheduler.{PendingToolCall, has_key, ids_of}
use gopheragent.Request.Dangling.{has_id}
use gopheragent.Execution.State.{
  WaveState, found, prepend_found, call_message, results_in_order, append_assistant_tool_call_msg,
  append_tool_results_in_order, is_done, unfinished,
}
use gopheragent.Execution.Replies.{Filed, found-Filed}
use gopheragent.Execution.Resume.{
  pending_calls_of, last_other, unanswered_calls, pending_at, pending_tool_turn,
}

last_other-tools :
    (ms : List Message) → All (λ (m : Message). m.role ≡ role_tool) ms → last_other ms ≡ none
unfolding last_other
last_other-tools [] h = refl
last_other-tools (m ∷ ms) (tool, rest) =
    option_both (λ (o : Option ℕ). o ≡ none) (last_other ms)
      (λ _.
        if_both (λ (o : Option ℕ). o ≡ none) (has_role role_tool m) (λ _. refl)
          (λ other. absurd (true≢false (sym ((same_iff m.role role_tool).1 tool) ∙ other))))
      (λ i e. absurd (no_index i (sym e ∙ last_other-tools ms rest)))
  where
    no_index : (i : ℕ) → some i ≢ none
    no_index i e = cc

last_other-append :
    (xs : List Message) (m : Message) (ms : List Message)
    → last_other ms ≡ none
    → has_role role_tool m ≡ false
    → last_other (xs ++ m ∷ ms) ≡ some (length xs)
unfolding last_other
last_other-append [] m ms e other = rw (last_other, e, other) refl
last_other-append (x ∷ xs) m ms e other = rw (last_other, last_other-append xs m ms e other) refl

get_elem?-append :
    (xs : List Message) (m : Message) (ms : List Message)
    → get_elem? (xs ++ m ∷ ms) (length xs) ≡ some m
get_elem?-append [] m ms = refl
get_elem?-append (x ∷ xs) m ms = get_elem?-append xs m ms

drop-append :
    (xs : List Message) (m : Message) (ms : List Message)
    → drop (suc (length xs)) (xs ++ m ∷ ms) ≡ ms
drop-append [] m ms = refl
drop-append (x ∷ xs) m ms = drop-append xs m ms

pending_calls_of-call_message :
    (content : Text) (calls : List PendingToolCall)
    → pending_calls_of (call_message content calls) ≡ calls
pending_calls_of-call_message content [] = refl
pending_calls_of-call_message content (c ∷ cs) =
    ap (◌∷◌ c) (pending_calls_of-call_message content cs)

abbrev holds : List (Text × Message) → Text → Bool
holds t id = elim (find id t) [ none ↦ false | some _ ↦ true ]

found-none : (id : Text) (t : List (Text × Message)) → find id t ≡ none → found id t ≡ none
found-none id t e =
    option_both (λ (o : Option Message). o ≡ none) (find id t) (λ _. refl) (λ m q. absurd cc)

holds-none : (id : Text) (t : List (Text × Message)) → find id t ≡ none → holds t id ≡ false
holds-none id t e = option_both (λ (b : Bool). b ≡ false) (find id t) (λ _. refl) (λ m q. absurd cc)

holds-some :
    (id : Text) (t : List (Text × Message)) (m : Message) → find id t ≡ some m → holds t id ≡ true
holds-some id t m e =
    option_both (λ (b : Bool). b ≡ true) (find id t) (λ q. absurd cc) (λ _ _. refl)

module _ (t : List (Text × Message)) (filed : Filed t) where
  -- The IDs that the results answer.
  answered_ids-lem :
      (cs : List PendingToolCall) (id : Text)
      → has_id (map (λ (m : Message). m.tool_call_id) (results_in_order cs t)) id
        ≡ (holds t id && has_key (ids_of cs) id)
  unfolding results_in_order
  answered_ids-lem [] id = ground arith
  answered_ids-lem (c ∷ cs) id =
      let tail = answered_ids-lem cs id in
      elim (Option-cases (find c.id t)) [
        | inl e ↦
            let gone = found-none c.id t e in
            elim (Bool-cases (same c.id id)) [
              | inl here ↦
                  let empty =
                    holds-none id t (subst (λ k. find k t ≡ none) ((same_iff c.id id).0 here) e) in
                  rw gone (tail ∙ rw empty refl)
              | inr other ↦ rw (gone, other) tail
            ]
        | inr (m, e) ↦
            let kept = found-Filed c.id t m filed e in
            let named = ap (λ k. same k id) (filed c.id m e).1 in
            elim (Bool-cases (same c.id id)) [
              | inl here ↦
                  let full =
                    holds-some id t m
                      (subst (λ k. find k t ≡ some m) ((same_iff c.id id).0 here) e) in
                  rw (kept, named, here, full) refl
              | inr other ↦ rw (kept, named, other) tail
            ]
      ]

  results-tools :
      (cs : List PendingToolCall)
      → All (λ (m : Message). m.role ≡ role_tool) (results_in_order cs t)
  unfolding results_in_order
  results-tools [] = tt
  results-tools (c ∷ cs) =
      let P = λ (o : Option Message).
        All (λ (m : Message). m.role ≡ role_tool) (prepend_found o (results_in_order cs t)) in
      option_both P (find c.id t) (λ _. results-tools cs)
        (λ m e.
          if_both P (same m.role []) (λ _. results-tools cs)
            (λ _. ((filed c.id m e).0, results-tools cs)))

-- The calls of a list are among its IDs.
ids-All :
    (seen cs : List PendingToolCall)
    → ((id : Text) → has_key (ids_of cs) id ≡ true → has_key (ids_of seen) id ≡ true)
    → All (λ (c : PendingToolCall). has_key (ids_of seen) c.id ≡ true) cs
ids-All seen [] sub = tt
ids-All seen (c ∷ cs) sub =
    (sub c.id (rw (same_refl c.id) refl), ids-All seen cs (λ id k. sub id (ground arith)))

if-swap :
    (d : Bool) (c : PendingToolCall) (xs ys : List PendingToolCall)
    → xs ≡ ys
    → (if not d then c ∷ xs else xs) ≡ (if d then ys else c ∷ ys)
if-swap true c xs ys e = e
if-swap false c xs ys e = ap (◌∷◌ c) e

and-key : (a b : Bool) → b ≡ true → (a && b) ≡ a
and-key a b e = ground arith

read_back :
    (msgs : List Message) (content : Text) (calls : List PendingToolCall) (replies : List Message)
    → last_other replies ≡ none
    → pending_tool_turn (msgs ++ call_message content calls ∷ replies)
      ≡ pending_at (length msgs) (unanswered_calls replies calls)
unfolding text_discrete pending_tool_turn
read_back msgs content [] replies e =
    rw
      (
        pending_tool_turn,
        last_other-append msgs (call_message content []) replies e refl,
        get_elem?-append msgs (call_message content []) replies,
      )
      refl
read_back msgs content (c ∷ cs) replies e =
    rw
      (
        pending_tool_turn,
        last_other-append msgs (call_message content (c ∷ cs)) replies e refl,
        get_elem?-append msgs (call_message content (c ∷ cs)) replies,
      )
      (ap
          (λ r.
            pending_at (length msgs)
              (unanswered_calls r (pending_calls_of (call_message content (c ∷ cs)))))
          (drop-append msgs (call_message content (c ∷ cs)) replies)
        ∙ ap (λ calls. pending_at (length msgs) (unanswered_calls replies calls))
            (pending_calls_of-call_message content (c ∷ cs)))

pub filter-unfinished :
    (ws : WaveState) (p : PendingToolCall → Bool) (cs : List PendingToolCall)
    → All (λ (c : PendingToolCall). p c ≡ not (is_done ws c)) cs
    → filter_by p cs ≡ unfinished ws cs
unfolding unfinished
filter-unfinished ws p [] h = refl
filter-unfinished ws p (c ∷ cs) (same_test, rest) =
    rw same_test (if-swap (is_done ws c) c _ _ (filter-unfinished ws p cs rest))

unanswered-unfinished :
    (ws : WaveState) (calls : List PendingToolCall)
    → Filed ws.tool_msgs
    → unanswered_calls (results_in_order calls ws.tool_msgs) calls ≡ unfinished ws calls
unanswered-unfinished ws calls filed = filter-unfinished ws _ calls (
    All-map calls
      (λ c k. ap not (
        answered_ids-lem ws.tool_msgs filed calls c.id
        ∙ and-key (is_done ws c) (has_key (ids_of calls) c.id) k))
      (ids-All calls calls (λ id k. k)))

-- If every stored reply is a tool message that names its call, then what `pendingToolTurn` reads
-- from the transcript of a turn is the place of its assistant message and exactly the calls of the
-- turn that have no reply, in their order; and nothing if every call has one.
pub pending_tool_turn-record :
    (msgs : List Message) (content : Text) (calls : List PendingToolCall) (ws : WaveState)
    → Filed ws.tool_msgs
    → pending_tool_turn (
        append_tool_results_in_order
          (append_assistant_tool_call_msg msgs content calls)
          calls
          ws.tool_msgs)
      ≡ pending_at (length msgs) (unfinished ws calls)
unfolding append_tool_results_in_order append_assistant_tool_call_msg
pending_tool_turn-record msgs content calls ws filed =
    let replies = results_in_order calls ws.tool_msgs in
    ap pending_tool_turn (append_assoc msgs (call_message content calls ∷ []) replies)
    ∙ read_back msgs content calls replies
        (last_other-tools replies (results-tools ws.tool_msgs filed calls))
    ∙ ap (pending_at (length msgs)) (unanswered-unfinished ws calls filed)
