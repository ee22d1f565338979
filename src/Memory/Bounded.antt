-- ===== src/Memory/Bounded.antt =====
-- The size of a scope under the cap, through the operations of the store.
use gopheragent.Base.{
  ℕ, zero, suc, ◌+◌, ◌≤◌, ◌<◌, ◌≡◌, refl, sym, ap, subst, ◌∙◌, false, ◌&&◌, List, [], ◌∷◌, Option,
  none, some, arith, if_both, length, ltb, leb, Text, same, Result, ok, err, find, insert, remove,
  find-insert, find-remove, find-insert_self, find-insert_ne, length-remove, length-remove_found,
}
use gopheragent.Memory.{
  Note, Bucket, InMemStore, MemoryError, bucket_of, stamped, with_room, put, delete, merged,
  trimmed, replace_all, evict_oldest,
}
use gopheragent.Memory.Oldest.{length-evict_oldest}

abbrev pub Fits : ℕ → Bucket → Type 0
Fits cap bucket = 0 < cap → length bucket ≤ cap

abbrev pub IsBounded : InMemStore → Type 0
IsBounded s = (scope : Text) → Fits s.max_per_scope (bucket_of scope s)

pub data MemoryOp : Type 0 where
  putting : ℕ → Note → MemoryOp
  deleting : Text → MemoryOp
  replacing : ℕ → List Note → MemoryOp

-- An operation on a scope that fails leaves the store as it was.
abbrev pub settle : InMemStore → Result MemoryError InMemStore → InMemStore
settle s (err e) = s
settle s (ok after) = after

unfoldable pub run_memory : MemoryOp → Text → InMemStore → InMemStore
unfolding put delete replace_all
run_memory (putting now note) scope s = settle s (put now scope note s)
run_memory (deleting key) scope s = delete scope key s
run_memory (replacing now notes) scope s = settle s (replace_all now scope notes s)

insert-IsBounded :
    (scope : Text) (bucket : Bucket) (s : InMemStore)
    → Fits s.max_per_scope bucket
    → IsBounded s
    → IsBounded (record s { notes = insert scope bucket s.notes })
insert-IsBounded scope bucket s fits bounded k =
    subst (λ o. Fits s.max_per_scope (elim o [ none ↦ [] | some b ↦ b ]))
      (sym (find-insert k scope bucket s.notes))
      (if_both (λ (o : Option Bucket). Fits s.max_per_scope (elim o [ none ↦ [] | some b ↦ b ]))
        (same scope k) (λ _. fits) (λ _. bounded k))

remove-IsBounded :
    (scope : Text) (s : InMemStore)
    → IsBounded s
    → IsBounded (record s { notes = remove scope s.notes })
remove-IsBounded scope s bounded k =
    subst (λ o. Fits s.max_per_scope (elim o [ none ↦ [] | some b ↦ b ]))
      (sym (find-remove k scope s.notes))
      (if_both (λ (o : Option Bucket). Fits s.max_per_scope (elim o [ none ↦ [] | some b ↦ b ]))
        (same scope k) (λ _ pos. omega arith) (λ _. bounded k))

-- A bucket with room for a new key, or with the key in it, fits after the insertion.
with_room-Fits :
    (cap : ℕ) (bucket : Bucket) (key : Text) (note : Note)
    → Fits cap bucket
    → Fits cap (insert key note (with_room cap bucket (find key bucket)))
with_room-Fits cap bucket key note fits = by_find (find key bucket) refl
  where
    evicting :
        (b : Bucket) → length b ≤ cap → cap ≤ length b → 0 < cap → length (evict_oldest b) < cap
    evicting [] low high pos = absurd (omega arith)
    evicting (e ∷ es) low high pos = omega (arith, length-evict_oldest e es)

    room : 0 < cap → length (with_room cap bucket none) < cap
    room pos =
        if_both (λ (b : Bucket). length b < cap) (ltb 0 cap && leb cap (length bucket))
          (λ full. evicting bucket (fits pos) (ground arith) pos) (λ free. ground (arith, fits pos))

    by_find :
        (o : Option Note)
        → find key bucket ≡ o
        → Fits cap (insert key note (with_room cap bucket o))
    by_find none q pos = omega (arith, length-remove key (with_room cap bucket none), room pos)
    by_find (some old) q pos = omega (arith, length-remove_found key bucket old q, fits pos)

put-IsBounded :
    (now : ℕ) (scope : Text) (note : Note) (s : InMemStore)
    → IsBounded s
    → IsBounded (settle s (put now scope note s))
unfolding put
put-IsBounded now scope note s bounded = by_key note.key
  where
    by_key :
        (t : Text)
        → IsBounded (
            settle s (elim t as (λ _. Result MemoryError InMemStore) [
              | [] ↦ err MemoryError.key_required
              | ◌∷◌ _ _ ↦ ok (record s {
                notes =
                    insert scope
                      (insert note.key (stamped now (find note.key (bucket_of scope s)) note) (
                        with_room s.max_per_scope
                          (bucket_of scope s)
                          (find note.key (bucket_of scope s))))
                      s.notes;
              })
            ]))
    by_key [] = bounded
    by_key (c ∷ t) =
        insert-IsBounded scope _ s
          (with_room-Fits s.max_per_scope (bucket_of scope s) note.key
            (stamped now (find note.key (bucket_of scope s)) note) (bounded scope))
          bounded

delete-IsBounded :
    (scope key : Text) (s : InMemStore) → IsBounded s → IsBounded (delete scope key s)
unfolding delete
delete-IsBounded scope key s bounded = by_scope (find scope s.notes) (bounded scope)
  where
    by_rest :
        (b : Bucket)
        → Fits s.max_per_scope b
        → IsBounded (elim b as (λ _. InMemStore) [
          | [] ↦ record s { notes = remove scope s.notes }
          | ◌∷◌ e es ↦ record s { notes = insert scope (e ∷ es) s.notes }
        ])
    by_rest [] fits = remove-IsBounded scope s bounded
    by_rest (e ∷ es) fits = insert-IsBounded scope (e ∷ es) s fits bounded

    by_scope :
        (o : Option Bucket)
        → Fits s.max_per_scope (elim o [ none ↦ [] | some b ↦ b ])
        → IsBounded (elim o as (λ _. InMemStore) [
          | none ↦ s
          | some bucket ↦ elim (remove key bucket) [
            | [] ↦ record s { notes = remove scope s.notes }
            | ◌∷◌ e es ↦ record s { notes = insert scope (e ∷ es) s.notes }
          ]
        ])
    by_scope none fits = bounded
    by_scope (some bucket) fits =
        by_rest (remove key bucket) (λ pos. omega (arith, length-remove key bucket, fits pos))

-- The rounds of the loop are enough.
trimmed-Fits :
    (fuel cap : ℕ) (next : Bucket) → length next ≤ fuel + cap → Fits cap (trimmed fuel cap next)
unfolding trimmed
trimmed-Fits zero cap next enough pos = omega arith
trimmed-Fits (suc fuel) cap [] enough pos =
    if_both (λ (b : Bucket). length b ≤ cap) (ltb 0 cap && ltb cap 0) (λ over. ground arith)
      (λ _. omega arith)
trimmed-Fits (suc fuel) cap (e ∷ es) enough pos =
    let rest =
      trimmed-Fits fuel cap (evict_oldest (e ∷ es)) (omega (arith, length-evict_oldest e es)) pos in
    if_both (λ (b : Bucket). length b ≤ cap) (ltb 0 cap && ltb cap (suc (length es))) (λ _. rest)
      (λ small. ground arith)

replace_all-IsBounded :
    (now : ℕ) (scope : Text) (notes : List Note) (s : InMemStore)
    → IsBounded s
    → IsBounded (settle s (replace_all now scope notes s))
unfolding replace_all
replace_all-IsBounded now scope [] s bounded = remove-IsBounded scope s bounded
replace_all-IsBounded now scope (n ∷ notes) s bounded =
    by_merge (merged now (bucket_of scope s) (n ∷ notes) [])
  where
    by_merge :
        (r : Result MemoryError Bucket)
        → IsBounded (
            settle s (elim r as (λ _. Result MemoryError InMemStore) [
              | err e ↦ err e
              | ok next ↦ ok (record s {
                notes = insert scope (trimmed (length next) s.max_per_scope next) s.notes;
              })
            ]))
    by_merge (err e) = bounded
    by_merge (ok next) =
        insert-IsBounded scope (trimmed (length next) s.max_per_scope next) s
          (trimmed-Fits (length next) s.max_per_scope next (omega arith)) bounded

-- Whatever is put, deleted or replaced, failed calls included, no scope of a store with a cap comes
-- to hold more notes than the cap when none did before.
pub run_memory-IsBounded :
    (op : MemoryOp) (scope : Text) (s : InMemStore)
    → IsBounded s
    → IsBounded (run_memory op scope s)
unfolding run_memory
run_memory-IsBounded (putting now note) scope s bounded = put-IsBounded now scope note s bounded
run_memory-IsBounded (deleting key) scope s bounded = delete-IsBounded scope key s bounded
run_memory-IsBounded (replacing now notes) scope s bounded =
    replace_all-IsBounded now scope notes s bounded

-- A note with a key is stored under it, stamped with the time of now and with the creation time
-- of the version that it replaces; every other scope is left as it was.
pub put-find :
    (now : ℕ) (scope : Text) (note : Note) (s : InMemStore) (c : ℕ) (t : Text)
    → note.key ≡ c ∷ t
    → (after : InMemStore) × ((put now scope note s ≡ ok after)
        × ((find note.key (bucket_of scope after)
              ≡ some (stamped now (find note.key (bucket_of scope s)) note))
            × ((other : Text)
                → same scope other ≡ false
                → bucket_of other after ≡ bucket_of other s)))
unfolding put
put-find now scope note s c t keyed = (
  record s { notes = insert scope bucket s.notes },
  (
    ap
        (λ k. elim k as (λ _. Result MemoryError InMemStore) [
          | [] ↦ err MemoryError.key_required
          | ◌∷◌ _ _ ↦ ok (record s { notes = insert scope bucket s.notes })
        ])
        keyed,
    (
      ap (λ (o : Option Bucket). find note.key (elim o [ none ↦ [] | some b ↦ b ]))
            (find-insert_self scope bucket s.notes)
          ∙ find-insert_self note.key _ _,
      λ other miss.
          ap (λ (o : Option Bucket). elim o as (λ _. Bucket) [ none ↦ [] | some b ↦ b ])
            (find-insert_ne other scope bucket s.notes miss),
    ),
  ),
)
  where
    bucket : Bucket
    bucket =
        insert note.key (stamped now (find note.key (bucket_of scope s)) note)
          (with_room s.max_per_scope (bucket_of scope s) (find note.key (bucket_of scope s)))
