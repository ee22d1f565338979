-- ===== src/Execution/Waves/Splits.antt =====
-- The gated calls of a wave that repeat an earlier one.
use gopheragent.Base.{
  ◌≡◌, refl, sym, ap, subst, ◌∙◌, ◌⊎◌, inl, inr, Bool, true, false, ◌||◌, List, [], ◌∷◌, none, some,
  if◌then◌else◌, if_both, option_both, Bool-cases, length, ltb, All, Text, same, same_iff,
  same_refl, find, insert, find-insert, In,
}
use mathlib.Core.Bool.{true≢false}
use gopheragent.Scheduler.{PendingToolCall, has_key, ids_of}
use gopheragent.Execution.Host.{Host}
use gopheragent.Execution.Call.{cache_key}
use gopheragent.Execution.Waves.{
  GatedDuplicate, is_confirmed, split_gated, split_gated_duplicates, kept_call, repeated_call,
}

-- Each call of a wave is dispatched, or repeats a call of the wave that is.
abbrev pub Covers : List PendingToolCall → List PendingToolCall × List GatedDuplicate → Type 0
Covers wave (out, dups) =
    (k : Text)
    → has_key (ids_of wave) k ≡ true
    → (has_key (ids_of out) k ≡ true) ⊎ ((d : GatedDuplicate) × (In d dups × (d.call.id ≡ k)))

pub or_true : (b c : Bool) → c ≡ true → (b || c) ≡ true
or_true true c h = refl
or_true false c h = h

kept-Covers :
    (tc : PendingToolCall) (wave : List PendingToolCall)
    (r : List PendingToolCall × List GatedDuplicate)
    → Covers wave r
    → Covers (tc ∷ wave) (kept_call tc r)
kept-Covers tc wave (out, dups) covers k hit = elim (Bool-cases (same tc.id k)) [
  | inl this ↦ inl (ap (λ b. b || has_key (ids_of out) k) this)
  | inr other ↦ elim (covers k (ap (λ b. b || has_key (ids_of wave) k) (sym other) ∙ hit)) [
    | inl later ↦ inl (or_true (same tc.id k) (has_key (ids_of out) k) later)
    | inr dup ↦ inr dup
  ]
]

repeated-Covers :
    (tc : PendingToolCall) (leader : Text) (wave : List PendingToolCall)
    (r : List PendingToolCall × List GatedDuplicate)
    → Covers wave r
    → Covers (tc ∷ wave) (repeated_call tc leader r)
repeated-Covers tc leader wave (out, dups) covers k hit = elim (Bool-cases (same tc.id k)) [
  | inl this ↦ inr (record { call = tc; leader_id = leader }, (inl refl, (same_iff tc.id k).0 this))
  | inr other ↦ elim (covers k (ap (λ b. b || has_key (ids_of wave) k) (sym other) ∙ hit)) [
    | inl later ↦ inl later
    | inr (d, (inside, e)) ↦ inr (d, (inr inside, e))
  ]
]

split_gated-Covers :
    (h : Host) (wave : List PendingToolCall) (seen : List (Text × Text))
    → Covers wave (split_gated h wave seen)
unfolding split_gated
split_gated-Covers h [] seen = λ k hit. inl hit
split_gated-Covers h (tc ∷ wave) seen =
    let again = split_gated-Covers h wave seen in
    let first = split_gated-Covers h wave (insert (cache_key h tc) tc.id seen) in
    if_both (Covers (tc ∷ wave)) (is_confirmed h tc)
      (λ _.
        option_both (Covers (tc ∷ wave)) (find (cache_key h tc) seen)
          (λ _. kept-Covers tc wave _ first) (λ leader _. repeated-Covers tc leader wave _ again))
      (λ _. kept-Covers tc wave _ again)

-- What holds of the dispatched calls holds of the leaders of the repeated ones.
abbrev pub Led : (Text → Type 0) → List PendingToolCall × List GatedDuplicate → Type 0
Led P (out, dups) =
    ((k : Text) → has_key (ids_of out) k ≡ true → P k)
    → All (λ (d : GatedDuplicate). P d.leader_id) dups

abbrev Leads : (Text → Type 0) → List (Text × Text) → Type 0
Leads P seen = (key leader : Text) → find key seen ≡ some leader → P leader

Leads-insert :
    (P : Text → Type 0) (key id : Text) (seen : List (Text × Text))
    → P id
    → Leads P seen
    → Leads P (insert key id seen)
Leads-insert P key id seen p leads k leader h =
    by_key (same key k) (sym (find-insert k key id seen) ∙ h)
  where
    by_key : (b : Bool) → (if b then some id else find k seen) ≡ some leader → P leader
    by_key true q = subst P (ap (λ o. elim o [ none ↦ id | some x ↦ x ]) q) p
    by_key false q = leads k leader q

kept-Led :
    (P : Text → Type 0) (tc : PendingToolCall) (r : List PendingToolCall × List GatedDuplicate)
    → (P tc.id → Led P r)
    → Led P (kept_call tc r)
kept-Led P tc (out, dups) led f =
    led (f tc.id (ap (λ b. b || has_key (ids_of out) tc.id) (same_refl tc.id)))
      (λ k hit. f k (or_true (same tc.id k) (has_key (ids_of out) k) hit))

repeated-Led :
    (P : Text → Type 0) (tc : PendingToolCall) (leader : Text)
    (r : List PendingToolCall × List GatedDuplicate)
    → P leader
    → Led P r
    → Led P (repeated_call tc leader r)
repeated-Led P tc leader (out, dups) p led f = (p, led f)

split_gated-Led :
    (P : Text → Type 0) (h : Host) (wave : List PendingToolCall) (seen : List (Text × Text))
    → Leads P seen
    → Led P (split_gated h wave seen)
unfolding split_gated
split_gated-Led P h [] seen leads = λ f. tt
split_gated-Led P h (tc ∷ wave) seen leads =
    let again = split_gated-Led P h wave seen leads in
    let first = split_gated-Led P h wave (insert (cache_key h tc) tc.id seen) in
    if_both (Led P) (is_confirmed h tc)
      (λ _.
        option_both (Led P) (find (cache_key h tc) seen)
          (λ _. kept-Led P tc _ (λ p. first (Leads-insert P (cache_key h tc) tc.id seen p leads)))
          (λ leader q. repeated-Led P tc leader _ (leads (cache_key h tc) leader q) again))
      (λ _. kept-Led P tc _ (λ _. again))

pub split-Covers :
    (h : Host) (wave : List PendingToolCall) → Covers wave (split_gated_duplicates h wave)
unfolding split_gated_duplicates
split-Covers h wave =
    if_both (Covers wave) (ltb (length wave) 2) (λ _ k hit. inl hit)
      (λ _. split_gated-Covers h wave [])

pub split-Led :
    (P : Text → Type 0) (h : Host) (wave : List PendingToolCall)
    → Led P (split_gated_duplicates h wave)
unfolding split_gated_duplicates
split-Led P h wave =
    if_both (Led P) (ltb (length wave) 2) (λ _ f. tt)
      (λ _. split_gated-Led P h wave [] (λ key leader q. absurd (none-some q)))
  where
    none-some : {leader : Text} → none ≡ some leader → ⊥
    none-some q = true≢false (sym (ap (λ o. elim o [ none ↦ false | some _ ↦ true ]) q))
