-- ===== src/Session/Manager/Evict/Idle.antt =====
-- Which sessions the eviction clears.
use gopheragent.Base.{
  ℕ, ◌≡◌, refl, sym, ap, subst, ◌∙◌, ◌⊎◌, inl, inr, ◌<◌, ◌+◌, ◌-◌, true, false, List, Option, none,
  some, if◌then◌else◌, if_both, ltb, Text, arith,
}
use mathlib.Core.Bool.{true≢false}
use gopheragent.History.{Message}
use gopheragent.Session.Manager.{InMemSessionManager, is_expired, evict_expired}
use gopheragent.Session.Manager.Slots.{Slot, slot_of}
use gopheragent.Session.Manager.Evict.{cleared, dropped, evicted, evict_expired-evicted}

-- The session has a log, and its last use lies more than a positive TTL back.
abbrev pub Idle : ℕ → ℕ → Slot → Type 0
Idle now ttl s =
    (0 < ttl)
    × (((log : List Message) × (s.log ≡ some log))
        × ((used : ℕ) × ((s.used ≡ some used) × (used + ttl < now))))

-- What the eviction may make of a slot.
abbrev pub Evicts : ℕ → ℕ → Slot → Slot → Type 0
Evicts now ttl s after = (Idle now ttl s × (after ≡ cleared s)) ⊎ ((¬ Idle now ttl s) × (after ≡ s))

none-some {ℓ} : {A : Type ℓ} {a : A} → none ≡ some a → ⊥
none-some q = true≢false (sym (ap (λ o. elim o [ none ↦ false | some _ ↦ true ]) q))

dropped-Evicts :
    (now ttl : ℕ) (s : Slot) (log : List Message)
    → 0 < ttl
    → s.log ≡ some log
    → Evicts now ttl s (dropped now ttl s)
dropped-Evicts now ttl s log positive has_log = by_use s.used refl
  where
    by_use :
        (o : Option ℕ)
        → s.used ≡ o
        → Evicts now ttl s (if is_expired now ttl o then cleared s else s)
    by_use none q = inr (λ idle. none-some (sym q ∙ idle.1.1.1.0), refl)
    by_use (some used) q =
        if_both (Evicts now ttl s) (ltb ttl (now - used))
          (λ late. inl ((positive, ((log, has_log), (used, (q, ground arith)))), refl))
          (λ early. inr (
            λ idle.
                let u : used ≡ idle.1.1.0 =
                  ap (λ o. elim o [ none ↦ 0 | some n ↦ n ]) (sym q ∙ idle.1.1.1.0) in
                let below = idle.1.1.1.1 in ground (arith, u, below, early),
            refl,
          ))

evicted-Evicts : (now ttl : ℕ) (s : Slot) → Evicts now ttl s (evicted now ttl s)
evicted-Evicts now ttl s =
    if_both (Evicts now ttl s) (ltb 0 ttl) (λ positive. by_log s.log refl (ground arith))
      (λ off. inr (λ idle. let positive = idle.0 in ground (arith, positive, off), refl))
  where
    by_log :
        (o : Option (List Message))
        → s.log ≡ o
        → 0 < ttl
        → Evicts now ttl s (elim o [ none ↦ s | some _ ↦ dropped now ttl s ])
    by_log none q positive = inr (λ idle. none-some (sym q ∙ idle.1.0.1), refl)
    by_log (some log) q positive = dropped-Evicts now ttl s log positive q

-- The loop that evicts idle sessions clears the slot of a session, but for its title and its times
-- of update and deletion, if it has a log and was last used more than a positive TTL ago. The slot
-- of any other session, whatever the others are, it leaves as it was.
pub evict_expired-Evicts :
    (now : ℕ) (m : InMemSessionManager) (k : Text)
    → Evicts now m.ttl (slot_of m k) (slot_of (evict_expired now m) k)
evict_expired-Evicts now m k =
    subst (Evicts now m.ttl (slot_of m k)) (sym (evict_expired-evicted now m k))
      (evicted-Evicts now m.ttl (slot_of m k))
