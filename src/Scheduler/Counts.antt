-- ===== src/Scheduler/Counts.antt =====
-- The indegrees, and how many dependencies of a node are in no wave yet.
use gopheragent.Base.{
  ℕ, suc, ◌+◌, ◌-◌, ◌≡◌, refl, inl, inr, true, false, ◌||◌, List, [], ◌∷◌, arith, if◌then◌else◌,
  All, Text, Bool-cases,
}
use gopheragent.Scheduler.{PendingToolCall, Node, has_key, ids_of, release}

-- No ID twice.
abbrev pub Distinct : List Text → Type 0
Distinct [] = Unit {0}
Distinct (d ∷ ds) = (has_key ds d ≡ false) × Distinct ds

-- None of `ids` is in `done`.
abbrev pub Apart : List Text → List Text → Type 0
Apart done = All λ id. has_key done id ≡ false

-- The IDs in `done` and those of a wave.
unfoldable pub mark_all : List PendingToolCall → List Text → List Text
mark_all [] done = done
mark_all (c ∷ wave) done = mark_all wave (c.id ∷ done)

unfoldable pub count_open : List Text → List Text → ℕ
count_open done [] = 0
count_open done (d ∷ ds) = if has_key done d then count_open done ds else suc (count_open done ds)

count_open-cons :
    (done ds : List Text) (s : Text)
    → Distinct ds
    → has_key done s ≡ false
    → count_open done ds ≡ count_open (s ∷ done) ds + (if has_key ds s then 1 else 0)
unfolding count_open
count_open-cons done [] s h fresh = refl
count_open-cons done (d ∷ ds) s h fresh = ground (arith, count_open-cons done ds s h.1 fresh)

-- The dependencies are listed once each, and the indegree counts the open ones.
abbrev pub Tallied : List Text → Node → Type 0
Tallied done n = Distinct n.deps × (n.indeg ≡ count_open done n.deps)

pub has_key-mark_all :
    (wave : List PendingToolCall) (done : List Text) (id : Text)
    → has_key (mark_all wave done) id ≡ (has_key (ids_of wave) id || has_key done id)
unfolding mark_all
has_key-mark_all [] done id = refl
has_key-mark_all (c ∷ wave) done id = ground (arith, has_key-mark_all wave (c.id ∷ done) id)

pub call-release : (wave : List PendingToolCall) (n : Node) → (release wave n).call ≡ n.call
unfolding release
call-release [] n = refl
call-release (c ∷ wave) n =
    ground (arith, call-release wave n, call-release wave (record n { indeg = n.indeg - 1 }))

pub deps-release : (wave : List PendingToolCall) (n : Node) → (release wave n).deps ≡ n.deps
unfolding release
deps-release [] n = refl
deps-release (c ∷ wave) n =
    ground (arith, deps-release wave n, deps-release wave (record n { indeg = n.indeg - 1 }))

pub Apart-cons :
    (done ids : List Text) (s : Text)
    → Apart done ids
    → has_key ids s ≡ false
    → Apart (s ∷ done) ids
Apart-cons done [] s h fresh = tt
Apart-cons done (d ∷ ids) s h fresh = (ground arith, Apart-cons done ids s h.1 (ground arith))

-- Releasing a wave of new IDs keeps the count right.
pub release-Tallied :
    (wave : List PendingToolCall) (done : List Text) (n : Node)
    → Distinct (ids_of wave)
    → Apart done (ids_of wave)
    → Tallied done n
    → Tallied (mark_all wave done) (release wave n)
unfolding release mark_all
release-Tallied [] done n distinct apart t = t
release-Tallied (c ∷ wave) done n distinct apart t =
    let one = count_open-cons done n.deps c.id t.0 apart.0 in
    let rest = Apart-cons done (ids_of wave) c.id apart.1 distinct.0 in
    elim (Bool-cases (has_key n.deps c.id)) [
      | inl dep ↦
          rw (dep, release)
            (release-Tallied wave (c.id ∷ done) (record n { indeg = n.indeg - 1 }) distinct.1 rest
              (t.0, ground arith))
      | inr free ↦
          rw (free, release)
            (release-Tallied wave (c.id ∷ done) n distinct.1 rest (t.0, ground arith))
    ]

-- Where nothing is open, every dependency is done.
pub closed_deps :
    (done ds : List Text) (id : Text)
    → count_open done ds ≡ 0
    → has_key ds id ≡ true
    → has_key done id ≡ true
unfolding count_open
closed_deps done [] id h k = cc
closed_deps done (d ∷ ds) id h k = ground (arith, closed_deps done ds id)
