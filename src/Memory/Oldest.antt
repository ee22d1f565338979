-- ===== src/Memory/Oldest.antt =====
-- What the eviction of a note takes out of a bucket.
use gopheragent.Base.{
  ℕ, ◌≤◌, ◌<◌, ◌≡◌, refl, sym, ap, subst, inl, inr, true, false, [], ◌∷◌, Option, some, arith,
  if_both, length, All, In, Text, same, same_refl, find, remove, length-remove_found,
}
use gopheragent.Memory.{Note, Bucket, is_older, oldest_from, evict_oldest}

-- `r` is an entry of the bucket that no entry was updated before.
abbrev pub Least : Text × Note → Bucket → Type 0
Least r bucket = In r bucket × All (λ (e : Text × Note). r.1.updated_at ≤ e.1.updated_at) bucket

is_older-true :
    (k : Text) (n : Note) (key : Text) (at : ℕ) → is_older k n key at ≡ true → n.updated_at ≤ at
is_older-true k n key at h = ground arith

is_older-false :
    (k : Text) (n : Note) (key : Text) (at : ℕ) → is_older k n key at ≡ false → at ≤ n.updated_at
is_older-false k n key at h = ground arith

oldest_from-Least :
    (es : Bucket) (k : Text) (n : Note)
    → (r : Text × Note) × ((oldest_from es k n.updated_at ≡ r.0) × Least r ((k, n) ∷ es))
unfolding oldest_from
oldest_from-Least [] k n = ((k, n), (refl, (inl refl, (omega arith, tt))))
oldest_from-Least ((k', n') ∷ es) k n =
    if_both (λ (key : Text). (r : Text × Note) × ((key ≡ r.0) × Least r ((k, n) ∷ (k', n') ∷ es)))
      (is_older k' n' k n.updated_at)
      (λ older.
        let (r, (at, (inside, (low, rest)))) = oldest_from-Least es k' n' in
        (
          r,
          (
            at,
            (inr inside, (omega (arith, is_older-true k' n' k n.updated_at older), (low, rest))),
          ),
        ))
      (λ newer.
        let (r, (at, (inside, (low, rest)))) = oldest_from-Least es k n in
        (
          r,
          (
            at,
            (
              skip r inside,
              (low, (omega (arith, is_older-false k' n' k n.updated_at newer), rest)),
            ),
          ),
        ))
  where
    skip : (r : Text × Note) → In r ((k, n) ∷ es) → In r ((k, n) ∷ (k', n') ∷ es)
    skip r (inl e) = inl e
    skip r (inr i) = inr (inr i)

-- The eviction of a bucket that is not empty takes out the key of one of its notes, and no note of
-- the bucket was updated before that one.
pub evict_oldest-Least :
    (e : Text × Note) (es : Bucket)
    → (r : Text × Note) × ((evict_oldest (e ∷ es) ≡ remove r.0 (e ∷ es)) × Least r (e ∷ es))
unfolding evict_oldest
evict_oldest-Least (k, n) es =
    let (r, (at, least)) = oldest_from-Least es k n in
    (r, (ap (λ key. remove key ((k, n) ∷ es)) at, least))

find-In : (r : Text × Note) (es : Bucket) → In r es → (n : Note) × (find r.0 es ≡ some n)
find-In r [] h = absurd h
find-In r (e ∷ es) (inl same_entry) = (e.1, first)
  where
    first : find r.0 (e ∷ es) ≡ some e.1
    first =
        subst (λ (x : Text × Note). find x.0 (e ∷ es) ≡ some e.1) same_entry
          (rw (same_refl e.0) refl)
find-In r (e ∷ es) (inr i) =
    let (n, at) = find-In r es i in
    if_both (λ (o : Option Note). (n : Note) × (o ≡ some n)) (same e.0 r.0) (λ _. (e.1, refl))
      (λ _. (n, at))

pub length-evict_oldest :
    (e : Text × Note) (es : Bucket) → length (evict_oldest (e ∷ es)) < length (e ∷ es)
length-evict_oldest e es =
    let (r, (at, (inside, _))) = evict_oldest-Least e es in
    let (n, found) = find-In r (e ∷ es) inside in
    subst (λ (b : Bucket). length b < length (e ∷ es)) (sym at)
      (length-remove_found r.0 (e ∷ es) n found)
