-- ===== src/Session/Manager/Slots.antt =====
-- The manager as a function from session keys: what each operation does to the slot of a key.
use gopheragent.Base.{
  ℕ, ◌≡◌, refl, ap, ◌∙◌, Bool, true, false, List, Option, none, some, if◌then◌else◌, length, ltb,
  Text, same, find, insert, find-insert_self, find-insert_ne,
}
use gopheragent.History.{Message}
use gopheragent.Session.Manager.{
  InMemSessionManager, Tasks, touch, number_or_zero, should_summarize, stored_log, save_history,
}

-- All that is kept for one session key.
pub record Slot : Type 0 where
  pub log : Option (List Message)
  pub tasks : Option Tasks
  pub behavior : Option Text
  pub sum_len : Option ℕ
  pub updated : Option ℕ
  pub deleted : Option ℕ
  pub title : Option Text
  pub used : Option ℕ

abbrev pub slot_of : InMemSessionManager → Text → Slot
slot_of m k = record {
  log = find k m.sessions;
  tasks = find k m.async_tasks;
  behavior = find k m.behaviors;
  sum_len = find k m.last_sum_len;
  updated = find k m.updated_at;
  deleted = find k m.deleted_at;
  title = find k m.titles;
  used = find k m.last_use;
}

abbrev pub empty_slot : Slot
empty_slot = record {
  log = none;
  tasks = none;
  behavior = none;
  sum_len = none;
  updated = none;
  deleted = none;
  title = none;
  used = none;
}

-- One key is changed and every other is left as it was.
abbrev pub Changes : Text → (Slot → Slot) → InMemSessionManager → InMemSessionManager → Type 0
Changes key f before after =
    (slot_of after key ≡ f (slot_of before key))
    × ((k : Text) → same key k ≡ false → slot_of after k ≡ slot_of before k)

abbrev pub touched : ℕ → ℕ → Slot → Slot
touched ttl now s = if ltb 0 ttl then record s { used = some now } else s

pub touch-Changes :
    (now : ℕ) (key : Text) (m : InMemSessionManager)
    → Changes key (touched m.ttl now) m (touch now key m)
touch-Changes now key m = by_ttl (ltb 0 m.ttl)
  where
    by_ttl :
        (b : Bool)
        → Changes key
            (λ s. if b then record s { used = some now } else s)
            m
            (if b then record m { last_use = insert key now m.last_use } else m)
    by_ttl false = (refl, λ k miss. refl)
    by_ttl true = (
      rw (find-insert_self key now m.last_use) refl,
      λ k miss. rw (find-insert_ne k key now m.last_use miss) refl,
    )

pub Changes-trans :
    (key : Text) (f g : Slot → Slot) (a b c : InMemSessionManager)
    → Changes key f a b
    → Changes key g b c
    → Changes key (λ s. g (f s)) a c
Changes-trans key f g a b c (self, other) (self', other') =
    (self' ∙ ap g self, λ k miss. other' k miss ∙ other k miss)

find-if_self :
    (b : Bool) (k : Text) (n : ℕ) (t : List (Text × ℕ))
    → find k (if b then insert k n t else t) ≡ (if b then some n else find k t)
find-if_self true k n t = find-insert_self k n t
find-if_self false k n t = refl

find-if_ne :
    (b : Bool) (k j : Text) (n : ℕ) (t : List (Text × ℕ))
    → same j k ≡ false
    → find k (if b then insert j n t else t) ≡ find k t
find-if_ne true k j n t miss = find-insert_ne k j n t miss
find-if_ne false k j n t miss = refl

abbrev pub saved_slot : Bool → List Message → ℕ → Slot → Slot
saved_slot summarizes msgs now s = record s {
  log = some msgs;
  updated = some now;
  sum_len =
      if should_summarize summarizes (length msgs) (number_or_zero s.sum_len)
      then some (length msgs)
      else s.sum_len;
}

pub save_history-Changes :
    (now : ℕ) (key : Text) (msgs : List Message) (m : InMemSessionManager)
    → Changes key
        (λ s. touched m.ttl now (saved_slot m.summarizes msgs now s))
        m
        (save_history now key msgs m).0
unfolding save_history
save_history-Changes now key msgs m =
    let b =
      should_summarize m.summarizes (length msgs) (number_or_zero (find key m.last_sum_len)) in
    Changes-trans key (saved_slot m.summarizes msgs now) (touched m.ttl now) m
      (stored_log now key msgs m) (touch now key (stored_log now key msgs m))
      (
        rw
            (
              find-insert_self key msgs m.sessions,
              find-insert_self key now m.updated_at,
              find-if_self b key (length msgs) m.last_sum_len,
            )
            refl,
        λ k miss.
            rw
              (
                find-insert_ne k key msgs m.sessions miss,
                find-insert_ne k key now m.updated_at miss,
                find-if_ne b k key (length msgs) m.last_sum_len miss,
              )
              refl,
      )
      (touch-Changes now key (stored_log now key msgs m))
