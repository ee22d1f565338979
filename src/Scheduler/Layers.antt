-- ===== src/Scheduler/Layers.antt =====
-- One round of the loop: what it takes out, what it leaves, and the invariant that it keeps.
use mathlib.Core.List.{Perm, perm_middle}
use mathlib.Core.List.Perm
use gopheragent.Base.{
  ◌+◌, ◌<◌, ◌≡◌, refl, ap, sym, ◌∙◌, inl, inr, Bool, true, false, not, List, [], ◌∷◌, ◌++◌, map,
  arith, filter_by, All, All-map, Text, Bool-cases, length,
}
use gopheragent.Scheduler.{
  PendingToolCall, Node, has_key, ids_of, release, calls_of, is_ready, wave_of, waiting,
}
use gopheragent.Scheduler.Refs.{OutputRef, parse_refs}
use gopheragent.Scheduler.Counts.{
  Distinct, Apart, Apart-cons, Tallied, mark_all, has_key-mark_all, call-release, deps-release,
  release-Tallied, closed_deps,
}

-- Every reference of the call is among the dependencies of its node.
abbrev pub Recorded : Node → Type 0
Recorded n = All (λ (r : OutputRef). has_key n.deps r.ref_id ≡ true) (parse_refs n.call.args_json)

abbrev pub Refers : List Text → PendingToolCall → Type 0
Refers done c = All (λ (r : OutputRef). has_key done r.ref_id ≡ true) (parse_refs c.args_json)

pub record Inv (done : List Text) (pending : List Node) : Type 0 where
  pub distinct : Distinct (ids_of (calls_of pending))
  pub apart : Apart done (ids_of (calls_of pending))
  pub tallied : All (Tallied done) pending
  pub recorded : All Recorded pending

module _ (p : Node → Bool) where
  no_key-filter :
      (ns : List Node) (id : Text)
      → has_key (ids_of (calls_of ns)) id ≡ false
      → has_key (ids_of (calls_of (filter_by p ns))) id ≡ false
  no_key-filter [] id h = refl
  no_key-filter (n ∷ ns) id h = ground (arith, no_key-filter ns id)

  Distinct-filter :
      (ns : List Node)
      → Distinct (ids_of (calls_of ns))
      → Distinct (ids_of (calls_of (filter_by p ns)))
  Distinct-filter [] h = tt
  Distinct-filter (n ∷ ns) h =
      ground (arith, no_key-filter ns n.call.id h.0, Distinct-filter ns h.1)

  Apart-filter :
      (done : List Text) (ns : List Node)
      → Apart done (ids_of (calls_of ns))
      → Apart done (ids_of (calls_of (filter_by p ns)))
  Apart-filter done [] h = tt
  Apart-filter done (n ∷ ns) h = ground (arith, Apart-filter done ns h.1)

  All-filter {κ} : (P : Node → Type κ) (ns : List Node) → All P ns → All P (filter_by p ns)
  All-filter P [] h = tt
  All-filter P (n ∷ ns) h = elim (Bool-cases (p n)) [
    | inl e ↦ rw e (h.0, All-filter P ns h.1)
    | inr e ↦ rw e (All-filter P ns h.1)
  ]

-- The ready calls and the waiting ones have no ID in common.
Apart-split :
    (p : Node → Bool) (ns : List Node)
    → Distinct (ids_of (calls_of ns))
    → Apart (ids_of (calls_of (filter_by p ns))) (ids_of (calls_of (filter_by (λ n. not (p n)) ns)))
Apart-split p [] h = tt
Apart-split p (n ∷ ns) h = elim (Bool-cases (p n)) [
  | inl e ↦ rw e (
      Apart-cons (ids_of (calls_of (filter_by p ns))) _ n.call.id (Apart-split p ns h.1)
        (no_key-filter (λ m. not (p m)) ns n.call.id h.0))
  | inr e ↦ rw e (no_key-filter p ns n.call.id h.0, Apart-split p ns h.1)
]

pub calls_of-release :
    (wave : List PendingToolCall) (ns : List Node) → calls_of (map (release wave) ns) ≡ calls_of ns
calls_of-release wave [] = refl
calls_of-release wave (n ∷ ns) = rw (call-release wave n, calls_of-release wave ns)

abbrev pub left_after : List Node → List Node
left_after pending = map (release (wave_of pending)) (waiting pending)

Apart-mark_all :
    (wave : List PendingToolCall) (done ids : List Text)
    → Apart (ids_of wave) ids
    → Apart done ids
    → Apart (mark_all wave done) ids
Apart-mark_all wave done [] a b = tt
Apart-mark_all wave done (i ∷ ids) a b =
    (has_key-mark_all wave done i ∙ ground arith, Apart-mark_all wave done ids a.1 b.1)

Tallied-left :
    (wave : List PendingToolCall) (done : List Text) (ns : List Node)
    → Distinct (ids_of wave)
    → Apart done (ids_of wave)
    → All (Tallied done) ns
    → All (Tallied (mark_all wave done)) (map (release wave) ns)
Tallied-left wave done [] d a t = tt
Tallied-left wave done (n ∷ ns) d a t =
    (release-Tallied wave done n d a t.0, Tallied-left wave done ns d a t.1)

Recorded-left :
    (wave : List PendingToolCall) (ns : List Node)
    → All Recorded ns
    → All Recorded (map (release wave) ns)
Recorded-left wave [] h = tt
Recorded-left wave (n ∷ ns) h =
    (rw (call-release wave n, deps-release wave n) h.0, Recorded-left wave ns h.1)

-- A round keeps the invariant, with the wave among the done calls.
pub left_after-Inv :
    (done : List Text) (pending : List Node)
    → Inv done pending
    → Inv (mark_all (wave_of pending) done) (left_after pending)
left_after-Inv done pending v =
    let d = Distinct-filter is_ready pending v.distinct in
    let a = Apart-filter is_ready done pending v.apart in
    let same_calls = calls_of-release (wave_of pending) (waiting pending) in
    record {
      distinct = rw same_calls (Distinct-filter (λ n. not (is_ready n)) pending v.distinct);
      apart = rw same_calls (
          Apart-mark_all (wave_of pending) done _ (Apart-split is_ready pending v.distinct)
            (Apart-filter (λ n. not (is_ready n)) done pending v.apart));
      tallied =
          Tallied-left (wave_of pending) done (waiting pending) d a
            (All-filter (λ n. not (is_ready n)) (Tallied done) pending v.tallied);
      recorded =
          Recorded-left (wave_of pending) (waiting pending)
            (All-filter (λ n. not (is_ready n)) Recorded pending v.recorded);
    }

-- The references of a ready call are done.
pub wave-Refers :
    (done : List Text) (pending : List Node)
    → All (Tallied done) pending
    → All Recorded pending
    → All (Refers done) (wave_of pending)
wave-Refers done [] t r = tt
wave-Refers done (n ∷ ns) t r = elim (Bool-cases (is_ready n)) [
  | inl e ↦ rw e (
    All-map (parse_refs n.call.args_json)
        (λ ref k. closed_deps done n.deps ref.ref_id (sym t.0.1 ∙ ground arith) k) r.0,
    wave-Refers done ns t.1 r.1,
  )
  | inr e ↦ rw e (wave-Refers done ns t.1 r.1)
]

-- The wave and what is left are the calls that were pending.
pub wave-perm :
    (pending : List Node)
    → Perm (wave_of pending ++ calls_of (left_after pending)) (calls_of pending)
wave-perm pending =
    rw (calls_of-release (wave_of pending) (waiting pending)) (split is_ready pending)
  where
    split :
        (p : Node → Bool) (ns : List Node)
        → Perm (calls_of (filter_by p ns) ++ calls_of (filter_by (λ n. not (p n)) ns)) (calls_of ns)
    split p [] = Perm.nil
    split p (n ∷ ns) = elim (Bool-cases (p n)) [
      | inl e ↦ rw e (Perm.cons n.call (split p ns))
      | inr e ↦
          rw e
            (Perm.trans (perm_middle (calls_of (filter_by p ns)) _) (Perm.cons n.call (split p ns)))
    ]

length-split :
    (p : Node → Bool) (ns : List Node)
    → length (calls_of (filter_by p ns)) + length (filter_by (λ n. not (p n)) ns) ≡ length ns
length-split p [] = refl
length-split p (n ∷ ns) = ground (arith, length-split p ns)

length-release :
    (wave : List PendingToolCall) (ns : List Node) → length (map (release wave) ns) ≡ length ns
length-release wave [] = refl
length-release wave (n ∷ ns) = omega (arith, length-release wave ns)

-- A round with a ready call leaves fewer nodes.
pub left_after-lt :
    (pending : List Node) (c : PendingToolCall) (wave : List PendingToolCall)
    → wave_of pending ≡ c ∷ wave
    → length (left_after pending) < length pending
left_after-lt pending c wave e = omega (
  arith,
  length-split is_ready pending,
  ap length e,
  length-release (wave_of pending) (waiting pending),
)
