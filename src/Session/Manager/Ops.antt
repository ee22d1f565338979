-- ===== src/Session/Manager/Ops.antt =====
-- The operations of the manager that read or change what is kept for one session key.
use gopheragent.Base.{
  ℕ, ◌≡◌, refl, Bool, true, false, List, [], ◌∷◌, Option, none, some, if◌then◌else◌, ◌==◌, Text,
  same, find, insert, find-insert_self, find-insert_ne, find-remove_self, find-remove_ne,
}
use gopheragent.History.{Message}
use gopheragent.Session.Manager.{
  InMemSessionManager, Tasks, touch, number_or_zero, save_history, save_async_tasks,
  update_behavior_summary, set_title, soft_delete, restore, purge_key,
}
use gopheragent.Session.Manager.{history, async_tasks_of}
use gopheragent.Session.Manager.Slots.{
  Slot, slot_of, empty_slot, Changes, touched, touch-Changes, Changes-trans, saved_slot,
  save_history-Changes,
}

-- The operations on a key, with the clock that they read.
pub data SessionOp : Type 0 where
  reading reading_tasks : ℕ → SessionOp
  saving : ℕ → List Message → SessionOp
  saving_tasks : ℕ → Tasks → SessionOp
  profiling titling : Text → SessionOp
  tombstoning : ℕ → SessionOp
  restoring deleting : SessionOp

unfoldable pub run : SessionOp → Text → InMemSessionManager → InMemSessionManager
unfolding history async_tasks_of save_history save_async_tasks update_behavior_summary set_title
    soft_delete restore purge_key
run (reading now) key m = (history now key m).1
run (reading_tasks now) key m = (async_tasks_of now key m).1
run (saving now msgs) key m = (save_history now key msgs m).0
run (saving_tasks now tasks) key m = save_async_tasks now key tasks m
run (profiling summary) key m = update_behavior_summary key summary m
run (titling title) key m = set_title key title m
run (tombstoning now) key m = soft_delete now key m
run restoring key m = restore key m
run deleting key m = purge_key key m

abbrev pub titled : Text → Slot → Slot
titled [] s = record s { title = none }
titled (c ∷ t) s = record s { title = some (c ∷ t) }

-- A session is tombstoned once, and only where there is one.
abbrev pub tombstoned : ℕ → Slot → Slot
tombstoned now s = elim s.log [
  | none ↦ s
  | some _ ↦ if number_or_zero s.deleted == 0 then record s { deleted = some now } else s
]

-- What an operation does to the slot of its key.
abbrev pub effect : ℕ → Bool → SessionOp → Slot → Slot
effect ttl summarizes (reading now) s = touched ttl now s
effect ttl summarizes (reading_tasks now) s = touched ttl now s
effect ttl summarizes (saving now msgs) s = touched ttl now (saved_slot summarizes msgs now s)
effect ttl summarizes (saving_tasks now tasks) s = touched ttl now (record s { tasks = some tasks })
effect ttl summarizes (profiling summary) s = record s { behavior = some summary }
effect ttl summarizes (titling title) s = titled title s
effect ttl summarizes (tombstoning now) s = tombstoned now s
effect ttl summarizes restoring s = record s { deleted = none }
effect ttl summarizes deleting s = empty_slot

tasks-Changes :
    (now : ℕ) (key : Text) (tasks : Tasks) (m : InMemSessionManager)
    → Changes key
        (λ s. touched m.ttl now (record s { tasks = some tasks }))
        m
        (save_async_tasks now key tasks m)
unfolding save_async_tasks
tasks-Changes now key tasks m =
    Changes-trans key (λ s. record s { tasks = some tasks }) (touched m.ttl now) m
      (record m { async_tasks = insert key tasks m.async_tasks })
      (touch now key (record m { async_tasks = insert key tasks m.async_tasks }))
      (
        rw (find-insert_self key tasks m.async_tasks) refl,
        λ k miss. rw (find-insert_ne k key tasks m.async_tasks miss) refl,
      )
      (touch-Changes now key (record m { async_tasks = insert key tasks m.async_tasks }))

title-Changes :
    (key title : Text) (m : InMemSessionManager)
    → Changes key (titled title) m (set_title key title m)
unfolding set_title
title-Changes key [] m = (
  rw (find-remove_self key m.titles) refl,
  λ k miss. rw (find-remove_ne k key m.titles miss) refl,
)
title-Changes key (c ∷ title) m = (
  rw (find-insert_self key (c ∷ title) m.titles) refl,
  λ k miss. rw (find-insert_ne k key (c ∷ title) m.titles miss) refl,
)

tombstone-Changes :
    (now : ℕ) (key : Text) (m : InMemSessionManager)
    → Changes key (tombstoned now) m (soft_delete now key m)
unfolding soft_delete
tombstone-Changes now key m =
    by_log (find key m.sessions) (number_or_zero (find key m.deleted_at) == 0)
  where
    marked : InMemSessionManager
    marked = record m { deleted_at = insert key now m.deleted_at }

    by_log :
        (o : Option (List Message)) (b : Bool)
        → (slot_of
              (elim o as (λ _. InMemSessionManager) [
                | none ↦ m
                | some _ ↦ if b then record m { deleted_at = insert key now m.deleted_at } else m
              ])
              key
            ≡ (elim o as (λ _. Slot) [
              | none ↦ slot_of m key
              | some _ ↦ if b then record (slot_of m key) { deleted = some now } else slot_of m key
            ]))
          × ((k : Text)
              → same key k ≡ false
              → slot_of
                  (elim o as (λ _. InMemSessionManager) [
                    | none ↦ m
                    | some _ ↦
                        if b then record m { deleted_at = insert key now m.deleted_at } else m
                  ])
                  k
                ≡ slot_of m k)
    by_log none b = (refl, λ k miss. refl)
    by_log (some msgs) false = (refl, λ k miss. refl)
    by_log (some msgs) true = (
      rw (find-insert_self key now m.deleted_at) refl,
      λ k miss. rw (find-insert_ne k key now m.deleted_at miss) refl,
    )

purge-Changes :
    (key : Text) (m : InMemSessionManager) → Changes key (λ _. empty_slot) m (purge_key key m)
unfolding purge_key
purge-Changes key m = (
  rw
      (
        find-remove_self key m.sessions,
        find-remove_self key m.async_tasks,
        find-remove_self key m.behaviors,
        find-remove_self key m.last_sum_len,
        find-remove_self key m.updated_at,
        find-remove_self key m.deleted_at,
        find-remove_self key m.titles,
        find-remove_self key m.last_use,
      )
      refl,
  λ k miss.
      rw
        (
          find-remove_ne k key m.sessions miss,
          find-remove_ne k key m.async_tasks miss,
          find-remove_ne k key m.behaviors miss,
          find-remove_ne k key m.last_sum_len miss,
          find-remove_ne k key m.updated_at miss,
          find-remove_ne k key m.deleted_at miss,
          find-remove_ne k key m.titles miss,
          find-remove_ne k key m.last_use miss,
        )
        refl,
)

-- Reading and saving a log or the tasks of a session key, updating its profile, setting its title,
-- tombstoning, restoring and deleting it each have, on the slot of that key, the effect that the
-- specification gives, and leave all that is kept for any other key as it was.
pub run-Changes :
    (op : SessionOp) (key : Text) (m : InMemSessionManager)
    → Changes key (effect m.ttl m.summarizes op) m (run op key m)
unfolding run history async_tasks_of update_behavior_summary restore
run-Changes (reading now) key m = touch-Changes now key m
run-Changes (reading_tasks now) key m = touch-Changes now key m
run-Changes (saving now msgs) key m = save_history-Changes now key msgs m
run-Changes (saving_tasks now tasks) key m = tasks-Changes now key tasks m
run-Changes (profiling summary) key m = (
  rw (find-insert_self key summary m.behaviors) refl,
  λ k miss. rw (find-insert_ne k key summary m.behaviors miss) refl,
)
run-Changes (titling title) key m = title-Changes key title m
run-Changes (tombstoning now) key m = tombstone-Changes now key m
run-Changes restoring key m = (
  rw (find-remove_self key m.deleted_at) refl,
  λ k miss. rw (find-remove_ne k key m.deleted_at miss) refl,
)
run-Changes deleting key m = purge-Changes key m
