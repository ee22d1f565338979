-- ===== src/Request/Invariant/Injected.antt =====
-- The dynamic context in a request, and the check of such a request.
use gopheragent.Base.{
  ℕ, ◌≡◌, refl, sym, ap, subst, if◌then◌else◌, inr, Bool, true, false, not, ◌||◌, List, [], ◌∷◌,
  ◌++◌, if_both, any, Text, Option, none, some, text_discrete,
}
use gopheragent.History.{Message, ToolCall, has_role, plain_message, role_system, role_user}
use gopheragent.Request.Derive.{RequestPolicy, derive_request_messages}
use gopheragent.Request.Invariant.{
  is_injected, with_dynamic_context, dynamic_context_sentinel, conversation_of,
  derivation_reproduces,
}
use gopheragent.Request.Invariant.Alike.{AlikeCalls}
use gopheragent.Request.Invariant.Woven.{Woven, derivation_reproduces_iff}

AlikeCalls-refl : (calls : List ToolCall) → AlikeCalls calls calls
AlikeCalls-refl [] = tt
AlikeCalls-refl (c ∷ calls) = (refl, (refl, AlikeCalls-refl calls))

Woven-refl : (ms : List Message) → Woven ms ms
Woven-refl [] = tt
Woven-refl (m ∷ ms) =
    inr ((refl, (refl, (refl, (refl, AlikeCalls-refl m.tool_calls)))), Woven-refl ms)

Woven-last : (ms : List Message) (m : Message) → is_injected m ≡ true → Woven ms (ms ++ m ∷ [])
Woven-last [] m hit = (hit, tt)
Woven-last (w ∷ ms) m hit =
    inr ((refl, (refl, (refl, (refl, AlikeCalls-refl w.tool_calls)))), Woven-last ms m hit)

conversation_of-append :
    (xs ys : List Message) → conversation_of (xs ++ ys) ≡ conversation_of xs ++ conversation_of ys
conversation_of-append [] ys = refl
conversation_of-append (x ∷ xs) ys = by_role (has_role role_system x) (conversation_of-append xs ys)
  where
    by_role :
        (b : Bool)
        → conversation_of (xs ++ ys) ≡ conversation_of xs ++ conversation_of ys
        → (if not b then x ∷ conversation_of (xs ++ ys) else conversation_of (xs ++ ys))
          ≡ (if not b then x ∷ conversation_of xs else conversation_of xs) ++ conversation_of ys
    by_role true e = e
    by_role false e = ap (◌∷◌ x) e

any-append_last :
    (p : Message → Bool) (xs : List Message) (m : Message)
    → p m ≡ true
    → any p (xs ++ m ∷ []) ≡ true
any-append_last p [] m hit = rw hit refl
any-append_last p (x ∷ xs) m hit = by_first (p x) (any-append_last p xs m hit)
  where
    by_first : (b : Bool) → any p (xs ++ m ∷ []) ≡ true → (b || any p (xs ++ m ∷ [])) ≡ true
    by_first true e = refl
    by_first false e = e

abbrev injection : Text → Message
injection text = plain_message role_user (dynamic_context_sentinel ++ text)

-- Adding the dynamic context again, with whatever text, changes nothing once a text that is not
-- empty has been added.
with_dynamic_context-idempotent :
    (first : ℕ) (text : Text) (again : Option Text) (msgs : List Message)
    → with_dynamic_context again (with_dynamic_context (some (first ∷ text)) msgs)
      ≡ with_dynamic_context (some (first ∷ text)) msgs
unfolding with_dynamic_context
with_dynamic_context-idempotent first text none msgs = refl
with_dynamic_context-idempotent first text (some []) msgs = refl
with_dynamic_context-idempotent first text (some (c ∷ rest)) msgs =
    if_both (λ ms. (if any is_injected ms then ms else ms ++ injection (10 ∷ c ∷ rest) ∷ []) ≡ ms)
      (any is_injected msgs) (λ hit. rw hit refl)
      (λ _. rw (any-append_last is_injected msgs (injection (10 ∷ first ∷ text)) refl) refl)

-- A derived request passes the check, with the dynamic context added or not.
pub derivation_reproduces-derived :
    (warn_at : ℕ → ℕ) (stored : List Message) (p : RequestPolicy) (addition : Option Text)
    → derivation_reproduces warn_at stored p
        (with_dynamic_context addition (derive_request_messages warn_at stored p).messages)
      ≡ none
unfolding with_dynamic_context text_discrete
derivation_reproduces-derived warn_at stored p addition =
    (derivation_reproduces_iff warn_at stored p _).1
      (with_addition addition (derive_request_messages warn_at stored p).messages)
  where
    with_addition :
        (o : Option Text) (ms : List Message)
        → Woven (conversation_of ms) (conversation_of (with_dynamic_context o ms))
    with_addition none ms = Woven-refl (conversation_of ms)
    with_addition (some []) ms = Woven-refl (conversation_of ms)
    with_addition (some (c ∷ text)) ms =
        if_both (λ xs. Woven (conversation_of ms) (conversation_of xs)) (any is_injected ms)
          (λ _. Woven-refl (conversation_of ms))
          (λ _.
            subst (Woven (conversation_of ms))
              (sym (conversation_of-append ms (injection (10 ∷ c ∷ text) ∷ [])))
              (Woven-last (conversation_of ms) (injection (10 ∷ c ∷ text)) refl))
