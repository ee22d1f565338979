-- ===== src/Request/Invariant/Alike.antt =====
-- What sameMessage compares.
use gopheragent.Base.{
  ℕ, suc, ◌≡◌, refl, ap, Bool, true, false, List, [], ◌∷◌, arith, if_both, option_both, length,
  ◌==◌, ==_iff, same, same_iff, Option, none, some,
}
use mathlib.Core.Bool.{true≢false}
use gopheragent.History.{Message, ToolCall}
use gopheragent.Request.Invariant.{Change, changed_call, same_message}

abbrev is_some {ℓ} : {A : Type ℓ} → Option A → Bool
is_some none = false
is_some (some a) = true

pub some≢none {ℓ} : {A : Type ℓ} {a : A} → some a ≡ none → ⊥
some≢none q = true≢false (ap is_some q)

-- The calls agree in ids and arguments, one by one.
abbrev pub AlikeCalls : List ToolCall → List ToolCall → Type 0
AlikeCalls [] [] = Unit
AlikeCalls [] (b ∷ ys) = ⊥
AlikeCalls (a ∷ xs) [] = ⊥
AlikeCalls (a ∷ xs) (b ∷ ys) = (a.id ≡ b.id) × ((a.arguments ≡ b.arguments) × AlikeCalls xs ys)

-- Two messages that agree in all that sameMessage compares: neither the names of the tool calls
-- nor what the parts hold.
abbrev pub Alike : Message → Message → Type 0
Alike a b =
    (a.role ≡ b.role)
    × ((a.content ≡ b.content)
        × ((a.tool_call_id ≡ b.tool_call_id)
            × ((length a.parts ≡ length b.parts) × AlikeCalls a.tool_calls b.tool_calls)))

changed_call-Alike :
    (i : ℕ) (xs ys : List ToolCall)
    → length xs ≡ length ys
    → changed_call i xs ys ≡ none
    → AlikeCalls xs ys
unfolding changed_call
changed_call-Alike i [] [] e h = tt
changed_call-Alike i [] (b ∷ ys) e h = absurd (omega arith)
changed_call-Alike i (a ∷ xs) [] e h = absurd (omega arith)
changed_call-Alike i (a ∷ xs) (b ∷ ys) e h =
    let P = λ (o : Option ℕ). o ≡ none → AlikeCalls (a ∷ xs) (b ∷ ys) in
    if_both P (same a.id b.id)
      (λ ids.
        if_both P (same a.arguments b.arguments)
          (λ args h. (
            (same_iff a.id b.id).0 ids,
            (
              (same_iff a.arguments b.arguments).0 args,
              changed_call-Alike (suc i) xs ys (omega arith) h,
            ),
          ))
          (λ _ h. absurd (some≢none h)))
      (λ _ h. absurd (some≢none h)) h

Alike-changed_call :
    (i : ℕ) (xs ys : List ToolCall)
    → AlikeCalls xs ys
    → (changed_call i xs ys ≡ none) × (length xs ≡ length ys)
unfolding changed_call
Alike-changed_call i [] [] h = (refl, refl)
Alike-changed_call i [] (b ∷ ys) h = absurd h
Alike-changed_call i (a ∷ xs) [] h = absurd h
Alike-changed_call i (a ∷ xs) (b ∷ ys) (ids, (args, rest)) =
    let (below, long) = Alike-changed_call (suc i) xs ys rest in
    (rw ((same_iff a.id b.id).1 ids, (same_iff a.arguments b.arguments).1 args) below, ap suc long)

pub same_message-Alike : (a b : Message) → same_message a b ≡ none → Alike a b
unfolding same_message
same_message-Alike a b =
    let P = λ (o : Option Change). o ≡ none → Alike a b in
    if_both P (same a.role b.role)
      (λ role.
        if_both P (same a.content b.content)
          (λ content.
            if_both P (same a.tool_call_id b.tool_call_id)
              (λ id.
                if_both P (length a.tool_calls == length b.tool_calls)
                  (λ calls.
                    if_both P (length a.parts == length b.parts)
                      (λ parts.
                        option_both P (changed_call 0 a.tool_calls b.tool_calls)
                          (λ e _. (
                            (same_iff a.role b.role).0 role,
                            (
                              (same_iff a.content b.content).0 content,
                              (
                                (same_iff a.tool_call_id b.tool_call_id).0 id,
                                (
                                  ground arith,
                                  changed_call-Alike 0 a.tool_calls b.tool_calls (ground arith) e,
                                ),
                              ),
                            ),
                          ))
                          (λ i _ h. absurd (some≢none h)))
                      (λ _ h. absurd (some≢none h)))
                  (λ _ h. absurd (some≢none h)))
              (λ _ h. absurd (some≢none h)))
          (λ _ h. absurd (some≢none h)))
      (λ _ h. absurd (some≢none h))

pub Alike-same_message : (a b : Message) → Alike a b → same_message a b ≡ none
unfolding same_message
Alike-same_message a b (role, (content, (id, (parts, calls)))) =
    let (quiet, long) = Alike-changed_call 0 a.tool_calls b.tool_calls calls in
    rw
      (
        (same_iff a.role b.role).1 role,
        (same_iff a.content b.content).1 content,
        (same_iff a.tool_call_id b.tool_call_id).1 id,
        (==_iff (length a.tool_calls) (length b.tool_calls)).1 long,
        (==_iff (length a.parts) (length b.parts)).1 parts,
        quiet,
      )
      refl
