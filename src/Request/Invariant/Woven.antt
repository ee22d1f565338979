-- ===== src/Request/Invariant/Woven.antt =====
-- What the check of a request decides.
use gopheragent.Base.{
  ℕ, suc, ◌≡◌, refl, sym, ap, subst, ◌∙◌, ◌⊎◌, inl, inr, ◌↔◌, true, List, [], ◌∷◌, arith, if_both,
  option_both, length, if◌then◌else◌, ◌==◌, ==_iff, Option, none, some, contains,
}
use gopheragent.History.{Message}
use gopheragent.Request.Derive.{RequestPolicy, derive_request_messages}
use gopheragent.Request.Invariant.{
  Change, same_message, StoredError, changed_message, stored_unchanged, is_injected,
  conversation_of, DerivationError, reproduced, derivation_reproduces, dynamic_context_sentinel,
}
use gopheragent.Request.Invariant.Alike.{some≢none, Alike, same_message-Alike, Alike-same_message}

-- The messages `want`, in order, with injections between them and nothing else.
abbrev pub Woven : List Message → List Message → Type 0
Woven [] [] = Unit
Woven (w ∷ want) [] = ⊥
Woven [] (m ∷ got) = (is_injected m ≡ true) × Woven [] got
Woven (w ∷ want) (m ∷ got) =
    ((is_injected m ≡ true) × Woven (w ∷ want) got) ⊎ (Alike w m × Woven want got)

Woven-skip :
    (want : List Message) (m : Message) (got : List Message)
    → is_injected m ≡ true
    → Woven want got
    → Woven want (m ∷ got)
Woven-skip [] m got hit h = (hit, h)
Woven-skip (w ∷ want) m got hit h = inl (hit, h)

-- An injection that is like the next message may stand for it.
Woven-advance :
    (w : Message) (want got : List Message)
    → is_injected w ≡ true
    → Woven (w ∷ want) got
    → Woven want got
Woven-advance w want [] hit h = absurd h
Woven-advance w want (m ∷ got) hit (inl (here, h)) =
    Woven-skip want m got here (Woven-advance w want got hit h)
Woven-advance w want (m ∷ got) hit (inr (like, h)) =
    Woven-skip want m got (subst (λ t. contains t dynamic_context_sentinel ≡ true) like.1.0 hit) h

reproduced-Woven :
    (size next : ℕ) (want got : List Message)
    → reproduced size next want got ≡ none
    → Woven want got
unfolding reproduced
reproduced-Woven size next [] [] h = tt
reproduced-Woven size next (w ∷ want) [] h = some≢none h
reproduced-Woven size next [] (m ∷ got) h =
    if_both (λ o. o ≡ none → Woven [] (m ∷ got)) (is_injected m)
      (λ hit h. (hit, reproduced-Woven size next [] got h)) (λ _ h. absurd (some≢none h)) h
reproduced-Woven size next (w ∷ want) (m ∷ got) h =
    let P = λ (o : Option DerivationError). o ≡ none → Woven (w ∷ want) (m ∷ got) in
    option_both P (same_message w m)
      (λ like h. inr (same_message-Alike w m like, reproduced-Woven size (suc next) want got h))
      (λ c _.
        if_both P (is_injected m) (λ hit h. inl (hit, reproduced-Woven size next (w ∷ want) got h))
          (λ _ h. absurd (some≢none h)))
      h

Woven-reproduced :
    (size next : ℕ) (want got : List Message)
    → Woven want got
    → reproduced size next want got ≡ none
unfolding reproduced
Woven-reproduced size next [] [] h = refl
Woven-reproduced size next (w ∷ want) [] h = absurd h
Woven-reproduced size next [] (m ∷ got) (hit, h) = rw hit (Woven-reproduced size next [] got h)
Woven-reproduced size next (w ∷ want) (m ∷ got) h =
    option_both (λ (o : Option DerivationError). o ≡ none) (same_message w m)
      (λ like. Woven-reproduced size (suc next) want got (matched (same_message-Alike w m like) h))
      (λ c differs. skipped c differs (Woven-reproduced size next (w ∷ want) got) h)
  where
    matched : Alike w m → Woven (w ∷ want) (m ∷ got) → Woven want got
    matched like (inl (hit, rest)) =
        Woven-advance w want got
          (subst (λ t. contains t dynamic_context_sentinel ≡ true) (sym like.1.0) hit) rest
    matched like (inr (_, rest)) = rest

    skipped :
        (c : Change)
        → same_message w m ≡ some c
        → (Woven (w ∷ want) got → reproduced size next (w ∷ want) got ≡ none)
        → Woven (w ∷ want) (m ∷ got)
        → (if is_injected m
            then reproduced size next (w ∷ want) got
            else some (DerivationError.diverged next w.role m.role c))
          ≡ none
    skipped c differs later (inl (hit, rest)) = rw hit (later rest)
    skipped c differs later (inr (like, _)) =
        absurd (some≢none (sym differs ∙ Alike-same_message w m like))

-- The check of a request passes if and only if its messages other than system messages agree with
-- the derived ones, in order, with nothing between them but messages that carry the mark of an
-- injection. Two messages agree in role, content, tool-call ID, the IDs and arguments of their calls
-- and the number of their parts; the names of the calls and what the parts hold may differ.
pub derivation_reproduces_iff :
    (warn_at : ℕ → ℕ) (snapshot : List Message) (p : RequestPolicy) (sent : List Message)
    → (derivation_reproduces warn_at snapshot p sent ≡ none)
      ↔ Woven
          (conversation_of (derive_request_messages warn_at snapshot p).messages)
          (conversation_of sent)
unfolding derivation_reproduces
derivation_reproduces_iff warn_at snapshot p sent =
    let want = conversation_of (derive_request_messages warn_at snapshot p).messages in
    (
      reproduced-Woven (length want) 0 want (conversation_of sent),
      Woven-reproduced (length want) 0 want (conversation_of sent),
    )

-- The same messages, one by one.
abbrev pub AllAlike : List Message → List Message → Type 0
AllAlike [] [] = Unit
AllAlike [] (b ∷ after) = ⊥
AllAlike (a ∷ before) [] = ⊥
AllAlike (a ∷ before) (b ∷ after) = Alike a b × AllAlike before after

changed_message-AllAlike :
    (i : ℕ) (before after : List Message)
    → length before ≡ length after
    → changed_message i before after ≡ none
    → AllAlike before after
unfolding changed_message
changed_message-AllAlike i [] [] e h = tt
changed_message-AllAlike i [] (b ∷ after) e h = absurd (omega arith)
changed_message-AllAlike i (a ∷ before) [] e h = absurd (omega arith)
changed_message-AllAlike i (a ∷ before) (b ∷ after) e h =
    option_both (λ (o : Option StoredError). o ≡ none → AllAlike (a ∷ before) (b ∷ after))
      (same_message a b)
      (λ like h. (
        same_message-Alike a b like,
        changed_message-AllAlike (suc i) before after (omega arith) h,
      ))
      (λ c _ h. absurd (some≢none h)) h

AllAlike-changed_message :
    (i : ℕ) (before after : List Message)
    → AllAlike before after
    → (changed_message i before after ≡ none) × (length before ≡ length after)
unfolding changed_message
AllAlike-changed_message i [] [] h = (refl, refl)
AllAlike-changed_message i [] (b ∷ after) h = absurd h
AllAlike-changed_message i (a ∷ before) [] h = absurd h
AllAlike-changed_message i (a ∷ before) (b ∷ after) (like, rest) =
    let (quiet, long) = AllAlike-changed_message (suc i) before after rest in
    (rw (changed_message, Alike-same_message a b like) quiet, ap suc long)

-- The check that the request path did not write to the stored history passes if and only if every
-- message agrees with the copy in all that a provider receives, media left aside.
pub stored_unchanged_iff :
    (before after : List Message) → (stored_unchanged before after ≡ none) ↔ AllAlike before after
unfolding stored_unchanged
stored_unchanged_iff before after = (
  λ h.
      if_both (λ (o : Option StoredError). o ≡ none → AllAlike before after)
        (length before == length after)
        (λ long. changed_message-AllAlike 0 before after (ground arith))
        (λ _ h. absurd (some≢none h)) h,
  λ h.
      let (quiet, long) = AllAlike-changed_message 0 before after h in
      rw ((==_iff (length before) (length after)).1 long) quiet,
)
