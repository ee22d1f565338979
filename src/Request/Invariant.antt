-- ===== src/Request/Invariant.antt =====
-- pkg/agent/request_invariant.go: the check that a request can be accounted for by the stored
-- history, and that the request path did not write to it.
use gopheragent.Base.{
  ℕ, zero, suc, ◌-◌, Bool, true, false, not, List, [], ◌∷◌, ◌++◌, Option, none, some, if◌then◌else◌,
  length, ◌==◌, Text, codes, same, filter_by, any, contains,
}
use gopheragent.History.{Message, ToolCall, has_role, plain_message, role_system, role_user}
use gopheragent.Request.Derive.{RequestPolicy, derive_request_messages}
pub mod Alike
pub mod Woven
pub mod Injected

-- What sameMessage reports.
pub data Change : Type 0 where
  role_became tool_call_id_became : Text → Text → Change
  content_changed calls_became parts_became : ℕ → ℕ → Change
  call_changed : ℕ → Change

-- The index of the first call whose id or arguments differ, from `i` on.
unfoldable pub changed_call : ℕ → List ToolCall → List ToolCall → Option ℕ
changed_call i [] ys = none
changed_call i (a ∷ xs) [] = none
changed_call i (a ∷ xs) (b ∷ ys) =
    let rest = changed_call (suc i) xs ys in
    if same a.id b.id then (if same a.arguments b.arguments then rest else some i) else some i

unfoldable pub same_message : Message → Message → Option Change
unfolding changed_call
same_message a b =
    if same a.role b.role
    then if same a.content b.content
      then if same a.tool_call_id b.tool_call_id
        then if length a.tool_calls == length b.tool_calls
          then if length a.parts == length b.parts
            then elim (changed_call 0 a.tool_calls b.tool_calls) [
              | none ↦ none
              | some i ↦ some (call_changed i)
            ]
            else some (parts_became (length a.parts) (length b.parts))
          else some (calls_became (length a.tool_calls) (length b.tool_calls))
        else some (tool_call_id_became a.tool_call_id b.tool_call_id)
      else some (content_changed (length a.content) (length b.content))
    else some (role_became a.role b.role)

pub data StoredError : Type 0 where
  count_changed : ℕ → ℕ → StoredError
  message_changed : ℕ → Text → Change → StoredError

-- The first message that differs, from index `i` on.
unfoldable pub changed_message : ℕ → List Message → List Message → Option StoredError
unfolding same_message
changed_message i [] after = none
changed_message i (a ∷ before) [] = none
changed_message i (a ∷ before) (b ∷ after) =
    let rest = changed_message (suc i) before after in
    elim (same_message a b) [ none ↦ rest | some c ↦ some (message_changed i a.role c) ]

unfoldable pub stored_unchanged : List Message → List Message → Option StoredError
unfolding changed_message
stored_unchanged before after =
    if length before == length after
    then changed_message 0 before after
    else some (count_changed (length before) (length after))

abbrev pub dynamic_context_sentinel : Text
dynamic_context_sentinel = codes "<!-- dynamic-context -->"

-- Whether a message carries the injection that a request may add.
abbrev pub is_injected : Message → Bool
is_injected m = contains m.content dynamic_context_sentinel

-- The tail injection of withDynamicContext (pkg/agent/dynamic_context.go); `addition` is what the
-- DynamicContext function returned, none where it is not set.
unfoldable pub with_dynamic_context : Option Text → List Message → List Message
with_dynamic_context none msgs = msgs
with_dynamic_context (some []) msgs = msgs
with_dynamic_context (some (c ∷ addition)) msgs =
    if any is_injected msgs
    then msgs
    else msgs ++ plain_message role_user (dynamic_context_sentinel ++ 10 ∷ c ∷ addition) ∷ []

abbrev pub conversation_of : List Message → List Message
conversation_of msgs = filter_by (λ m. not (has_role role_system m)) msgs

pub data DerivationError : Type 0 where
  extra_message : Text → DerivationError
  diverged : ℕ → Text → Text → Change → DerivationError
  dropped : ℕ → ℕ → DerivationError

-- The loop over the messages of the request: the derived messages from index `next` on, `size` of
-- them in all.
unfoldable pub reproduced : ℕ → ℕ → List Message → List Message → Option DerivationError
unfolding same_message
reproduced size next [] [] = none
reproduced size next (w ∷ want) [] = some (dropped (size - next) size)
reproduced size next [] (m ∷ got) =
    let rest = reproduced size next [] got in
    if is_injected m then rest else some (extra_message m.role)
reproduced size next (w ∷ want) (m ∷ got) =
    let matched = reproduced size (suc next) want got in
    let skipped = reproduced size next (w ∷ want) got in
    elim (same_message w m) [
      | none ↦ matched
      | some c ↦ if is_injected m then skipped else some (diverged next w.role m.role c)
    ]

unfoldable pub derivation_reproduces :
    (ℕ → ℕ) → List Message → RequestPolicy → List Message → Option DerivationError
unfolding reproduced derive_request_messages
derivation_reproduces warn_at snapshot p sent =
    let want = conversation_of (derive_request_messages warn_at snapshot p).messages in
    reproduced (length want) 0 want (conversation_of sent)

pub data RequestViolation : Type 0 where
  wrote_through : StoredError → RequestViolation
  diverges : DerivationError → RequestViolation

abbrev pub reported {ℓ} : {A : Type ℓ} → (A → RequestViolation) → Option A → List RequestViolation
reported wrap none = []
reported wrap (some e) = wrap e ∷ []

-- What the handler is called with, in order; `enabled` says that RequestInvariant is set.
unfoldable pub check_request_invariant :
    (ℕ → ℕ)
    → Bool
    → RequestPolicy
    → List Message
    → List Message
    → List Message
    → List RequestViolation
unfolding stored_unchanged derivation_reproduces
check_request_invariant warn_at enabled p snapshot stored sent =
    if enabled
    then reported wrote_through (stored_unchanged snapshot stored)
      ++ reported diverges (derivation_reproduces warn_at snapshot p sent)
    else []
