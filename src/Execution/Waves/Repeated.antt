-- ===== src/Execution/Waves/Repeated.antt =====
-- The calls of a wave that are dispatched, and those that repeat an earlier one.
use gopheragent.Base.{
  ◌≡◌, refl, sym, ap, subst, ◌∙◌, ◌⊎◌, inl, inr, true, false, List, [], ◌∷◌, ◌++◌, none, some,
  if◌then◌else◌, if_both, option_both, Bool-cases, length, ltb, Text, same, same_iff, find, insert,
  find-insert, In,
}
use mathlib.Core.Bool.{true≢false}
use gopheragent.Scheduler.{PendingToolCall}
use gopheragent.Execution.Host.{Host}
use gopheragent.Execution.Call.{cache_key}
use gopheragent.Execution.Waves.{
  GatedDuplicate, is_confirmed, split_gated, split_gated_duplicates, kept_call, repeated_call,
}

-- The call comes behind another one with the same cache key (name and arguments), both of tools that
-- ask for confirmation.
abbrev pub Repeats : Host → List PendingToolCall → PendingToolCall → Type 0
Repeats h calls tc =
    (front : List PendingToolCall) × ((back : List PendingToolCall) × ((calls ≡ front ++ tc ∷ back)
        × ((leader : PendingToolCall) × (In leader front
              × ((cache_key h leader ≡ cache_key h tc)
                  × ((is_confirmed h leader ≡ true) × (is_confirmed h tc ≡ true)))))))

In-split :
    (tc : PendingToolCall) (calls : List PendingToolCall)
    → In tc calls
    → (front : List PendingToolCall) × ((back : List PendingToolCall) × (calls
          ≡ front ++ tc ∷ back))
In-split tc [] h = absurd h
In-split tc (c ∷ cs) (inl e) = ([], (cs, ap (λ x. x ∷ cs) e))
In-split tc (c ∷ cs) (inr later) =
    let (front, (back, e)) = In-split tc cs later in (c ∷ front, (back, ap (◌∷◌ c) e))

-- Where a call of a wave went: it was kept, its key was seen before the wave, or it repeats.
abbrev Went :
    Host
    → List PendingToolCall
    → List (Text × Text)
    → PendingToolCall
    → List PendingToolCall
    → Type 0
Went h wave seen tc out =
    In tc out
    ⊎ (((is_confirmed h tc ≡ true) × ((leader : Text) × (find (cache_key h tc) seen ≡ some leader)))
        ⊎ Repeats h wave tc)

Repeats-cons :
    (h : Host) (c tc : PendingToolCall) (wave : List PendingToolCall)
    → Repeats h wave tc
    → Repeats h (c ∷ wave) tc
Repeats-cons h c tc wave (front, (back, (e, (leader, (inside, rest))))) =
    (c ∷ front, (back, (ap (◌∷◌ c) e, (leader, (inr inside, rest)))))

kept-Went :
    (h : Host) (c tc : PendingToolCall) (wave : List PendingToolCall) (seen : List (Text × Text))
    (r : List PendingToolCall × List GatedDuplicate)
    → Went h wave seen tc r.0
    → Went h (c ∷ wave) seen tc (kept_call c r).0
kept-Went h c tc wave seen (out, dups) (inl kept) = inl (inr kept)
kept-Went h c tc wave seen (out, dups) (inr (inl known)) = inr (inl known)
kept-Went h c tc wave seen (out, dups) (inr (inr again)) =
    inr (inr (Repeats-cons h c tc wave again))

-- The leader is put among the seen keys.
first-Went :
    (h : Host) (c tc : PendingToolCall) (wave : List PendingToolCall) (seen : List (Text × Text))
    (r : List PendingToolCall × List GatedDuplicate)
    → is_confirmed h c ≡ true
    → In tc wave
    → Went h wave (insert (cache_key h c) c.id seen) tc r.0
    → Went h (c ∷ wave) seen tc (kept_call c r).0
first-Went h c tc wave seen (out, dups) confirmed inside (inl kept) = inl (inr kept)
first-Went h c tc wave seen (out, dups) confirmed inside (inr (inr again)) =
    inr (inr (Repeats-cons h c tc wave again))
first-Went h c tc wave seen (out, dups) confirmed inside (inr (inl (asks, (leader, found)))) =
    elim (Bool-cases (same (cache_key h c) (cache_key h tc))) [
      | inl e ↦
          let (front, (back, q)) = In-split tc wave inside in
          inr (
            inr (
              c ∷ front,
              (
                back,
                (
                  ap (◌∷◌ c) q,
                  (
                    c,
                    (
                      inl refl,
                      ((same_iff (cache_key h c) (cache_key h tc)).0 e, (confirmed, asks)),
                    ),
                  ),
                ),
              ),
            ))
      | inr e ↦ inr (
          inl (
            asks,
            (
              leader,
              sym (
                    find-insert (cache_key h tc) (cache_key h c) c.id seen
                    ∙ ap (λ b. if b then some c.id else find (cache_key h tc) seen) e)
                  ∙ found,
            ),
          ))
    ]

repeated-Went :
    (h : Host) (c tc : PendingToolCall) (leader : Text) (wave : List PendingToolCall)
    (seen : List (Text × Text)) (r : List PendingToolCall × List GatedDuplicate)
    → Went h wave seen tc r.0
    → Went h (c ∷ wave) seen tc (repeated_call c leader r).0
repeated-Went h c tc leader wave seen (out, dups) (inl kept) = inl kept
repeated-Went h c tc leader wave seen (out, dups) (inr (inl known)) = inr (inl known)
repeated-Went h c tc leader wave seen (out, dups) (inr (inr again)) =
    inr (inr (Repeats-cons h c tc wave again))

split_gated-Went :
    (h : Host) (wave : List PendingToolCall) (seen : List (Text × Text)) (tc : PendingToolCall)
    → In tc wave
    → Went h wave seen tc (split_gated h wave seen).0
unfolding split_gated
split_gated-Went h [] seen tc inside = absurd inside
split_gated-Went h (c ∷ wave) seen tc (inl this) =
    let P = λ (r : List PendingToolCall × List GatedDuplicate). Went h (c ∷ wave) seen tc r.0 in
    if_both P (is_confirmed h c)
      (λ confirmed.
        option_both P (find (cache_key h c) seen) (λ _. inl (inl this))
          (λ leader found. inr (
            inl (
              subst (λ x. is_confirmed h x ≡ true) this confirmed,
              (leader, subst (λ x. find (cache_key h x) seen ≡ some leader) this found),
            ))))
      (λ _. inl (inl this))
split_gated-Went h (c ∷ wave) seen tc (inr later) =
    let P = λ (r : List PendingToolCall × List GatedDuplicate). Went h (c ∷ wave) seen tc r.0 in
    let again = split_gated-Went h wave seen tc later in
    let first = split_gated-Went h wave (insert (cache_key h c) c.id seen) tc later in
    if_both P (is_confirmed h c)
      (λ confirmed.
        option_both P (find (cache_key h c) seen)
          (λ _.
            first-Went h c tc wave seen (split_gated h wave (insert (cache_key h c) c.id seen))
              confirmed later first)
          (λ leader _. repeated-Went h c tc leader wave seen (split_gated h wave seen) again))
      (λ _. kept-Went h c tc wave seen (split_gated h wave seen) again)

pub split-Repeats :
    (h : Host) (wave : List PendingToolCall) (tc : PendingToolCall)
    → In tc wave
    → In tc (split_gated_duplicates h wave).0 ⊎ Repeats h wave tc
unfolding split_gated_duplicates
split-Repeats h wave tc inside =
    if_both (λ (r : List PendingToolCall × List GatedDuplicate). In tc r.0 ⊎ Repeats h wave tc)
      (ltb (length wave) 2) (λ _. inl inside) (λ _. plain (split_gated-Went h wave [] tc inside))
  where
    plain :
        Went h wave [] tc (split_gated h wave []).0
        → In tc (split_gated h wave []).0 ⊎ Repeats h wave tc
    plain (inl kept) = inl kept
    plain (inr (inl (asks, (leader, found)))) =
        absurd (true≢false (sym (ap (λ o. elim o [ none ↦ false | some _ ↦ true ]) found)))
    plain (inr (inr again)) = inr again

-- Nothing is dispatched that is not in the wave.
split_gated-In :
    (h : Host) (wave : List PendingToolCall) (seen : List (Text × Text)) (tc : PendingToolCall)
    → In tc (split_gated h wave seen).0
    → In tc wave
unfolding split_gated
split_gated-In h [] seen tc = λ inside. absurd inside
split_gated-In h (c ∷ wave) seen tc =
    let P = λ (r : List PendingToolCall × List GatedDuplicate). In tc r.0 → In tc (c ∷ wave) in
    let again = split_gated-In h wave seen tc in
    let first = split_gated-In h wave (insert (cache_key h c) c.id seen) tc in
    if_both P (is_confirmed h c)
      (λ _.
        option_both P (find (cache_key h c) seen)
          (λ _. kept (split_gated h wave (insert (cache_key h c) c.id seen)) first)
          (λ leader _. repeated leader (split_gated h wave seen) again))
      (λ _. kept (split_gated h wave seen) again)
  where
    kept :
        (r : List PendingToolCall × List GatedDuplicate)
        → (In tc r.0 → In tc wave)
        → In tc (kept_call c r).0
        → In tc (c ∷ wave)
    kept (out, dups) f (inl e) = inl e
    kept (out, dups) f (inr later) = inr (f later)

    repeated :
        (leader : Text) (r : List PendingToolCall × List GatedDuplicate)
        → (In tc r.0 → In tc wave)
        → In tc (repeated_call c leader r).0
        → In tc (c ∷ wave)
    repeated leader (out, dups) f inside = inr (f inside)

pub split-In :
    (h : Host) (wave : List PendingToolCall) (tc : PendingToolCall)
    → In tc (split_gated_duplicates h wave).0
    → In tc wave
unfolding split_gated_duplicates
split-In h wave tc =
    if_both (λ (r : List PendingToolCall × List GatedDuplicate). In tc r.0 → In tc wave)
      (ltb (length wave) 2) (λ _ inside. inside) (λ _. split_gated-In h wave [] tc)
