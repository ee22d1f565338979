-- ===== src/Session/Manager/Evict.antt =====
-- The eviction of idle sessions, as what it does to each slot.
use gopheragent.Base.{
  ℕ, ◌≡◌, refl, sym, ap, subst, ◌∙◌, inl, inr, Bool, true, false, ◌||◌, List, [], ◌∷◌, none, some,
  if◌then◌else◌, Bool-cases, ltb, any, Text, same, same_iff, find, find-remove_self, find-remove_ne,
}
use gopheragent.History.{Message}
use gopheragent.Session.Manager.{
  InMemSessionManager, evict_key, is_expired, evict_each, evict_expired,
}
use gopheragent.Session.Manager.Slots.{Slot, slot_of, Changes}
pub mod Idle

abbrev pub cleared : Slot → Slot
cleared s = record s { log = none; tasks = none; behavior = none; sum_len = none; used = none }

evict-Changes : (key : Text) (m : InMemSessionManager) → Changes key cleared m (evict_key key m)
evict-Changes key m = (
  rw
      (
        find-remove_self key m.sessions,
        find-remove_self key m.async_tasks,
        find-remove_self key m.behaviors,
        find-remove_self key m.last_sum_len,
        find-remove_self key m.last_use,
      )
      refl,
  λ k miss.
      rw
        (
          find-remove_ne k key m.sessions miss,
          find-remove_ne k key m.async_tasks miss,
          find-remove_ne k key m.behaviors miss,
          find-remove_ne k key m.last_sum_len miss,
          find-remove_ne k key m.last_use miss,
        )
        refl,
)

abbrev pub dropped : ℕ → ℕ → Slot → Slot
dropped now ttl s = if is_expired now ttl s.used then cleared s else s

dropped-none :
    (now ttl : ℕ) (b : Bool) (s : Slot) → s.used ≡ none → (if b then dropped now ttl s else s) ≡ s
dropped-none now ttl false s h = refl
dropped-none now ttl true s h = ap (λ o. if is_expired now ttl o then cleared s else s) h

dropped-kept :
    (now ttl : ℕ) (b : Bool) (s : Slot)
    → is_expired now ttl s.used ≡ false
    → (if b then dropped now ttl s else s) ≡ s
dropped-kept now ttl false s h = refl
dropped-kept now ttl true s h = ap (λ x. if x then cleared s else s) h

abbrev has_key : Text → List (Text × List Message) → Bool
has_key k es = any (λ (e : Text × List Message). same e.0 k) es

evict_each-slot :
    (now : ℕ) (es : List (Text × List Message)) (m : InMemSessionManager) (k : Text)
    → slot_of (evict_each now es m) k
      ≡ (if has_key k es then dropped now m.ttl (slot_of m k) else slot_of m k)
unfolding evict_each
evict_each-slot now [] m k = refl
evict_each-slot now ((key, log) ∷ rest) m k =
    by_expired (is_expired now m.ttl (find key m.last_use)) refl (evict_each-slot now rest m k)
      (evict_each-slot now rest (evict_key key m) k)
  where
    goal : Slot
    goal = if (same key k || has_key k rest) then dropped now m.ttl (slot_of m k) else slot_of m k

    kept :
        is_expired now m.ttl (find key m.last_use) ≡ false
        → slot_of (evict_each now rest m) k
          ≡ (if has_key k rest then dropped now m.ttl (slot_of m k) else slot_of m k)
        → slot_of (evict_each now rest m) k ≡ goal
    kept q h = elim (Bool-cases (same key k)) [
      | inl hit ↦
          h
          ∙ dropped-kept now m.ttl (has_key k rest) (slot_of m k) (
              subst (λ t. is_expired now m.ttl (find t m.last_use) ≡ false) ((same_iff key k).0 hit)
                q)
          ∙ sym (
              dropped-kept now m.ttl (same key k || has_key k rest) (slot_of m k) (
                subst (λ t. is_expired now m.ttl (find t m.last_use) ≡ false)
                  ((same_iff key k).0 hit) q))
      | inr miss ↦
          h
          ∙ sym (
              ap
                (λ b.
                  if (b || has_key k rest) then dropped now m.ttl (slot_of m k) else slot_of m k)
                miss)
    ]

    gone :
        is_expired now m.ttl (find key m.last_use) ≡ true
        → slot_of (evict_each now rest (evict_key key m)) k ≡ (
            if has_key k rest
            then dropped now m.ttl (slot_of (evict_key key m) k)
            else slot_of (evict_key key m) k)
        → slot_of (evict_each now rest (evict_key key m)) k ≡ goal
    gone q h = elim (Bool-cases (same key k)) [
      | inl hit ↦
          let here =
            subst (λ t. slot_of (evict_key key m) t ≡ cleared (slot_of m t))
              ((same_iff key k).0 hit) (evict-Changes key m).0 in
          h
          ∙ dropped-none now m.ttl (has_key k rest) (slot_of (evict_key key m) k)
              (ap (λ (s : Slot). s.used) here)
          ∙ here
          ∙ sym (
              ap
                (λ b.
                  if (b || has_key k rest) then dropped now m.ttl (slot_of m k) else slot_of m k)
                hit
              ∙ ap (λ b. if b then cleared (slot_of m k) else slot_of m k)
                  (subst (λ t. is_expired now m.ttl (find t m.last_use) ≡ true)
                    ((same_iff key k).0 hit) q))
      | inr miss ↦
          h
          ∙ ap (λ s. if has_key k rest then dropped now m.ttl s else s)
              ((evict-Changes key m).1 k miss)
          ∙ sym (
              ap
                (λ b.
                  if (b || has_key k rest) then dropped now m.ttl (slot_of m k) else slot_of m k)
                miss)
    ]

    by_expired :
        (b : Bool)
        → is_expired now m.ttl (find key m.last_use) ≡ b
        → slot_of (evict_each now rest m) k
          ≡ (if has_key k rest then dropped now m.ttl (slot_of m k) else slot_of m k)
        → slot_of (evict_each now rest (evict_key key m)) k ≡ (
            if has_key k rest
            then dropped now m.ttl (slot_of (evict_key key m) k)
            else slot_of (evict_key key m) k)
        → slot_of (evict_each now rest (if b then evict_key key m else m)) k ≡ goal
    by_expired true q h h' = gone q h'
    by_expired false q h h' = kept q h

has_key-find :
    (k : Text) (es : List (Text × List Message)) (a b : Slot)
    → (if has_key k es then a else b) ≡ (elim (find k es) as (λ _. Slot) [ none ↦ b | some _ ↦ a ])
has_key-find k [] a b = refl
has_key-find k ((key, log) ∷ es) a b = by_key (same key k) (has_key-find k es a b)
  where
    by_key :
        (x : Bool)
        → (if has_key k es then a else b)
          ≡ (elim (find k es) as (λ _. Slot) [ none ↦ b | some _ ↦ a ])
        → (if (x || has_key k es) then a else b)
          ≡ (elim (if x then some log else find k es) as (λ _. Slot) [ none ↦ b | some _ ↦ a ])
    by_key true h = refl
    by_key false h = h

-- What the eviction does to a slot: where a TTL is set and the session has a log and was used
-- before the TTL, all but the title and the times of update and deletion goes.
abbrev pub evicted : ℕ → ℕ → Slot → Slot
evicted now ttl s = if ltb 0 ttl then (elim s.log [ none ↦ s | some _ ↦ dropped now ttl s ]) else s

pub evict_expired-evicted :
    (now : ℕ) (m : InMemSessionManager) (k : Text)
    → slot_of (evict_expired now m) k ≡ evicted now m.ttl (slot_of m k)
unfolding evict_expired
evict_expired-evicted now m k = by_ttl (ltb 0 m.ttl)
  where
    by_ttl :
        (b : Bool)
        → slot_of (if b then evict_each now m.sessions m else m) k ≡ (
            if b
            then (elim (find k m.sessions) as (λ _. Slot) [
              | none ↦ slot_of m k
              | some _ ↦ dropped now m.ttl (slot_of m k)
            ])
            else slot_of m k)
    by_ttl true =
        evict_each-slot now m.sessions m k
        ∙ has_key-find k m.sessions (dropped now m.ttl (slot_of m k)) (slot_of m k)
    by_ttl false = refl
