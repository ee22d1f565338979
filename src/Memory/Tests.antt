-- ===== src/Memory/Tests.antt =====
-- Runs of the memory store and witnesses of its theorems.
use gopheragent.Base.{
  ℕ, ◌≡◌, ◌≤◌, refl, if_both, [], ◌∷◌, Option, none, some, Text, codes, text_discrete, same, ok,
  remove, arith, length,
}
use gopheragent.Memory.{
  Note, Bucket, InMemStore, put, evict_oldest, oldest_from, replace_all, merged, trimmed,
}
use gopheragent.Memory.Oldest.{Least, evict_oldest-Least}
use gopheragent.Memory.Bounded.{IsBounded, putting, run_memory, run_memory-IsBounded}

abbrev note : Text → ℕ → Note
note key at = record { key = key; content = codes "x"; tags = []; created_at = at; updated_at = at }

abbrev scope : Text
scope = codes "u"

-- Two notes under a cap of two.
abbrev full : InMemStore
full = record {
  notes = (scope, (codes "a", note (codes "a") 3) ∷ (codes "b", note (codes "b") 2) ∷ []) ∷ [];
  max_per_scope = 2;
}

full-IsBounded : IsBounded full
full-IsBounded k pos =
    if_both (λ (o : Option Bucket). length (elim o as (λ _. Bucket) [ none ↦ [] | some b ↦ b ]) ≤ 2)
      (same scope k) (λ _. omega arith) (λ _. omega arith)

-- The third note takes the place of the oldest.
evicts_b :
    put 9 scope (note (codes "c") 0) full
    ≡ ok (record {
      notes = (scope, (codes "c", note (codes "c") 9) ∷ (codes "a", note (codes "a") 3) ∷ []) ∷ [];
      max_per_scope = 2;
    })
unfolding put evict_oldest oldest_from text_discrete
evicts_b = refl

-- A set that is too large is trimmed, with ties broken by the key.
trims :
    replace_all 9 scope (note (codes "x") 0 ∷ note (codes "y") 0 ∷ note (codes "z") 0 ∷ []) full
    ≡ ok (record {
      notes = (scope, (codes "z", note (codes "z") 9) ∷ (codes "y", note (codes "y") 9) ∷ []) ∷ [];
      max_per_scope = 2;
    })
unfolding replace_all merged trimmed evict_oldest oldest_from text_discrete
trims = refl

run_memory-IsBounded_example : IsBounded (run_memory (putting 9 (note (codes "c") 0)) scope full)
run_memory-IsBounded_example =
    run_memory-IsBounded (putting 9 (note (codes "c") 0)) scope full full-IsBounded

evict_oldest-Least_example :
    (r : Text × Note) × ((evict_oldest
          ((codes "a", note (codes "a") 3) ∷ (codes "b", note (codes "b") 2) ∷ [])
        ≡ remove r.0 ((codes "a", note (codes "a") 3) ∷ (codes "b", note (codes "b") 2) ∷ []))
      × Least r ((codes "a", note (codes "a") 3) ∷ (codes "b", note (codes "b") 2) ∷ []))
evict_oldest-Least_example =
    evict_oldest-Least (codes "a", note (codes "a") 3) ((codes "b", note (codes "b") 2) ∷ [])
