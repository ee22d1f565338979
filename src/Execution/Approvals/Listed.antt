-- ===== src/Execution/Approvals/Listed.antt =====
-- The calls that PendingApprovals lists.
use gopheragent.Base.{
  ◌≡◌, sym, subst, ◌∙◌, ◌⊎◌, inl, inr, Bool, true, List, [], ◌∷◌, filter_by, if_both, In,
}
use mathlib.Core.Bool.{true≢false}
use gopheragent.Scheduler.{PendingToolCall}
use gopheragent.Execution.Host.{Host}
use gopheragent.Execution.Resume.{needs_approval}
use gopheragent.Execution.Waves.{split_gated_duplicates}
use gopheragent.Execution.Waves.Repeated.{Repeats, split-Repeats, split-In}
use gopheragent.Execution.Approvals.{approvals_in}

-- What is listed of the pending calls.
abbrev pub Awaits : Host → List PendingToolCall → List PendingToolCall → Type 0
Awaits h pending listed =
    ((tc : PendingToolCall) → In tc listed → In tc pending × (needs_approval h tc ≡ true))
    × ((tc : PendingToolCall)
        → In tc pending
        → needs_approval h tc ≡ true
        → In tc listed ⊎ Repeats h pending tc)

module _ (p : PendingToolCall → Bool) where
  filter-In :
      (tc : PendingToolCall) (cs : List PendingToolCall)
      → In tc (filter_by p cs)
      → In tc cs × (p tc ≡ true)
  filter-In tc [] = λ inside. absurd inside
  filter-In tc (c ∷ cs) =
      let rest = filter-In tc cs in
      let P = λ (l : List PendingToolCall). In tc l → In tc (c ∷ cs) × (p tc ≡ true) in
      if_both P (p c) (λ hit inside. by_place rest hit inside)
        (λ _ inside. let (later, q) = rest inside in (inr later, q))
    where
      by_place :
          (In tc (filter_by p cs) → In tc cs × (p tc ≡ true))
          → p c ≡ true
          → In tc (c ∷ filter_by p cs)
          → In tc (c ∷ cs) × (p tc ≡ true)
      by_place rest hit (inl e) = (inl e, subst (λ x. p x ≡ true) e hit)
      by_place rest hit (inr later) = let (l, q) = rest later in (inr l, q)

  In-filter :
      (tc : PendingToolCall) (cs : List PendingToolCall)
      → In tc cs
      → p tc ≡ true
      → In tc (filter_by p cs)
  In-filter tc [] inside hit = absurd inside
  In-filter tc (c ∷ cs) (inl e) hit =
      if_both (In tc) (p c) (λ _. inl e)
        (λ miss. absurd (true≢false (sym (subst (λ x. p x ≡ true) (sym e) hit) ∙ miss)))
  In-filter tc (c ∷ cs) (inr later) hit =
      let rest = In-filter tc cs later hit in if_both (In tc) (p c) (λ _. inr rest) (λ _. rest)

pub approvals_in-Awaits :
    (h : Host) (pending : List PendingToolCall) → Awaits h pending (approvals_in h pending)
unfolding approvals_in
approvals_in-Awaits h pending = (
  λ tc listed.
      let (inside, asks) =
        filter-In (needs_approval h) tc (split_gated_duplicates h pending).0 listed in
      (split-In h pending tc inside, asks),
  λ tc inside asks. elim (split-Repeats h pending tc inside) [
    | inl kept ↦ inl (In-filter (needs_approval h) tc _ kept asks)
    | inr again ↦ inr again
  ],
)
