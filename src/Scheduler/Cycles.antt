-- ===== src/Scheduler/Cycles.antt =====
-- Batches in which some rank falls along every reference.
use gopheragent.Base.{
  ℕ, zero, suc, ◌≤◌, ◌<◌, ◌≡◌, ◌≢◌, refl, ap, ◌∙◌, inl, inr, Bool, true, false, not, ◌||◌, List, [],
  ◌∷◌, map, arith, filter_by, All, All-map, Text, same, Bool-cases, Result, ok, length,
}
use gopheragent.Scheduler.{
  PendingToolCall, Node, ScheduleError, Waves, has_key, ids_of, calls_of, index_calls, add_deps,
  fresh_node, build_nodes, is_ready, wave_of, waiting, release, next_round, layers,
  schedule_tool_calls,
}
use gopheragent.Scheduler.Refs.{OutputRef, parse_refs}
use gopheragent.Scheduler.Counts.{
  Distinct, Apart, Apart-cons, Tallied, count_open, mark_all, has_key-mark_all, call-release,
  deps-release,
}
use gopheragent.Scheduler.Layers.{Inv, left_after, left_after-Inv, left_after-lt, calls_of-release}
use gopheragent.Scheduler.Nodes.{build_nodes-Inv, calls_of-build_nodes}

Apart-nil : (ids : List Text) → Apart [] ids
Apart-nil [] = tt
Apart-nil (i ∷ ids) = (refl, Apart-nil ids)

pub length-calls_of : (ns : List Node) → length (calls_of ns) ≡ length ns
length-calls_of [] = refl
length-calls_of (n ∷ ns) = omega (arith, length-calls_of ns)

module _ (rank : Text → ℕ) where
  -- A reference to another call of the batch, of a smaller rank.
  abbrev pub Falls : List Text → PendingToolCall → OutputRef → Type 0
  Falls known c r = (has_key known r.ref_id ≡ true) × (rank r.ref_id < rank c.id)

  -- Every reference of every call falls.
  abbrev pub Acyclic : List Text → List PendingToolCall → Type 0
  Acyclic known = All λ c. All (Falls known c) (parse_refs c.args_json)

  -- The dependencies of a node are done or pending, and of smaller rank.
  abbrev Low : List Text → List Text → Node → Type 0
  Low done ids n =
      All (λ d. ((has_key ids d || has_key done d) ≡ true) × (rank d < rank n.call.id)) n.deps

  add_deps-ok :
      (known : List Text) (rs : List OutputRef) (n : Node)
      → All (Falls known n.call) rs
      → Low [] known n
      → (m : Node) × (add_deps known n rs ≡ ok m) × Low [] known m
  unfolding add_deps
  add_deps-ok known [] n f low = (n, refl, low)
  add_deps-ok known (r ∷ rs) n f low =
      let other : same r.ref_id n.call.id ≡ false = ground arith in
      elim (Bool-cases (has_key n.deps r.ref_id)) [
        | inl old ↦ rw (f.0.0, other, old) (add_deps-ok known rs n f.1 low)
        | inr new ↦
            rw (f.0.0, other, new)
              (add_deps-ok known rs (record n { deps = r.ref_id ∷ n.deps; indeg = suc n.indeg }) f.1
                ((ground arith, f.0.1), low))
      ]

  build_nodes-ok :
      (known : List Text) (cs : List PendingToolCall)
      → Acyclic known cs
      → (ns : List Node) × (build_nodes known cs ≡ ok ns) × All (Low [] known) ns
  unfolding build_nodes
  build_nodes-ok known [] a = ([], refl, tt)
  build_nodes-ok known (c ∷ cs) a =
      let (m, e, low) = add_deps-ok known (parse_refs c.args_json) (fresh_node c) a.0 tt in
      let (ms, q, lows) = build_nodes-ok known cs a.1 in (m ∷ ms, rw (e, q), (low, lows))

  -- An open dependency, where the count is not zero.
  open_dep :
      (done ids : List Text) (bound : ℕ) (ds : List Text)
      → count_open done ds ≢ 0
      → All (λ d. ((has_key ids d || has_key done d) ≡ true) × (rank d < bound)) ds
      → (d : Text) × (has_key ids d ≡ true) × (rank d < bound)
  unfolding count_open
  open_dep done ids bound [] h low = absurd (h refl)
  open_dep done ids bound (d ∷ ds) h low = elim (Bool-cases (has_key done d)) [
    | inl closed ↦ open_dep done ids bound ds (rw closed at h) low.1
    | inr waits ↦ (d, ground arith, low.0.1)
  ]

  node_of :
      (P : Node → Type 0) (ns : List Node) (id : Text)
      → All P ns
      → has_key (ids_of (calls_of ns)) id ≡ true
      → (n : Node) × (n.call.id ≡ id) × P n
  node_of P [] id all h = cc
  node_of P (n ∷ ns) id all h = elim (Bool-cases (same n.call.id id)) [
    | inl here ↦ (n, ground arith, all.0)
    | inr later ↦ node_of P ns id all.1 (ground arith)
  ]

  abbrev Stuck : List Text → List Text → Node → Type 0
  Stuck done ids n = Tallied done n × Low done ids n × (n.indeg ≢ 0)

  no_wave :
      (done ids : List Text) (ns : List Node)
      → All (Tallied done) ns
      → All (Low done ids) ns
      → wave_of ns ≡ []
      → All (Stuck done ids) ns
  no_wave done ids [] t l e = tt
  no_wave done ids (n ∷ ns) t l e = elim (Bool-cases (is_ready n)) [
    | inl ready ↦ absurd (ground arith)
    | inr waits ↦ ((t.0, l.0, λ z. ground arith), no_wave done ids ns t.1 l.1 (ground arith))
  ]

  -- Among nodes that are all stuck, an ID would have others of smaller rank without end.
  some_call_is_ready :
      (k : ℕ) (done : List Text) (ns : List Node) (id : Text)
      → All (Stuck done (ids_of (calls_of ns))) ns
      → has_key (ids_of (calls_of ns)) id ≡ true
      → rank id < k
      → ⊥
  some_call_is_ready zero done ns id all h lt = absurd (omega arith)
  some_call_is_ready (suc k) done ns id all h lt =
      let (n, e, s) = node_of (Stuck done (ids_of (calls_of ns))) ns id all h in
      let (d, waits, lower) =
        open_dep done (ids_of (calls_of ns)) (rank n.call.id) n.deps (λ z. s.2 (s.0.1 ∙ z)) s.1 in
      let same_rank : rank n.call.id ≡ rank id = ap rank e in
      some_call_is_ready k done ns d all waits (omega arith)

  key-split :
      (p : Node → Bool) (ns : List Node) (d : Text)
      → has_key (ids_of (calls_of ns)) d ≡ (
          has_key (ids_of (calls_of (filter_by p ns))) d
          || has_key (ids_of (calls_of (filter_by (λ n. not (p n)) ns))) d)
  key-split p [] d = refl
  key-split p (n ∷ ns) d = ground (arith, key-split p ns d)

  Low-deps :
      (done ids done' ids' : List Text) (bound : ℕ) (ds : List Text)
      → ((d : Text)
          → (has_key ids d || has_key done d) ≡ true
          → (has_key ids' d || has_key done' d) ≡ true)
      → All (λ d. ((has_key ids d || has_key done d) ≡ true) × (rank d < bound)) ds
      → All (λ d. ((has_key ids' d || has_key done' d) ≡ true) × (rank d < bound)) ds
  Low-deps done ids done' ids' bound [] f h = tt
  Low-deps done ids done' ids' bound (d ∷ ds) f h =
      ((f d h.0.0, h.0.1), Low-deps done ids done' ids' bound ds f h.1)

  Low-left :
      (wave : List PendingToolCall) (done ids done' ids' : List Text) (p : Node → Bool)
      (ns : List Node)
      → ((d : Text)
          → (has_key ids d || has_key done d) ≡ true
          → (has_key ids' d || has_key done' d) ≡ true)
      → All (Low done ids) ns
      → All (Low done' ids') (map (release wave) (filter_by p ns))
  Low-left wave done ids done' ids' p [] f h = tt
  Low-left wave done ids done' ids' p (n ∷ ns) f h = elim (Bool-cases (p n)) [
    | inl e ↦
        rw (e, call-release wave n, deps-release wave n)
          (
            Low-deps done ids done' ids' (rank n.call.id) n.deps f h.0,
            Low-left wave done ids done' ids' p ns f h.1,
          )
    | inr e ↦ rw e (Low-left wave done ids done' ids' p ns f h.1)
  ]

  key-left :
      (done : List Text) (pending : List Node) (d : Text)
      → (has_key (ids_of (calls_of pending)) d || has_key done d) ≡ true
      → (has_key (ids_of (calls_of (left_after pending))) d
          || has_key (mark_all (wave_of pending) done) d)
        ≡ true
  key-left done pending d h =
      rw
        (
          calls_of-release (wave_of pending) (waiting pending),
          has_key-mark_all (wave_of pending) done d,
        )
        (ground (arith, key-split is_ready pending d))

  next_round-ok :
      (continue : List Node → Result ScheduleError Waves) (pending : List Node)
      (wave : List PendingToolCall)
      → wave ≢ []
      → wave_of pending ≡ wave
      → ((c : PendingToolCall) (rest : List PendingToolCall)
          → wave_of pending ≡ c ∷ rest
          → (waves : Waves) × (continue (left_after pending) ≡ ok waves))
      → (waves : Waves) × (next_round continue pending wave ≡ ok waves)
  unfolding next_round
  next_round-ok continue pending [] n e go = absurd (n refl)
  next_round-ok continue pending (c ∷ wave) n e go =
      let (waves, q) = go c wave e in ((c ∷ wave) ∷ waves, rw (← e, q) (rw e refl))

  layers-ok :
      (f : ℕ) (done : List Text) (pending : List Node)
      → Inv done pending
      → All (Low done (ids_of (calls_of pending))) pending
      → length pending ≤ f
      → (waves : Waves) × (layers f pending ≡ ok waves)
  unfolding layers
  layers-ok zero done [] v low h = ([], refl)
  layers-ok (suc f) done [] v low h = ([], refl)
  layers-ok zero done (n ∷ ns) v low h = absurd (omega arith)
  layers-ok (suc f) done (n ∷ ns) v low h =
      let pending : List Node = n ∷ ns in
      let done' = mark_all (wave_of pending) done in
      next_round-ok (layers f) pending (wave_of pending)
        (λ none.
          some_call_is_ready (suc (rank n.call.id)) done pending n.call.id
            (no_wave done (ids_of (calls_of pending)) pending v.tallied low none) (ground arith)
            (omega arith))
        refl
        (λ c rest e.
          layers-ok f done' (left_after pending) (left_after-Inv done pending v)
            (Low-left (wave_of pending) done (ids_of (calls_of pending)) done'
              (ids_of (calls_of (left_after pending))) (λ m. not (is_ready m)) pending
              (key-left done pending) low)
            (omega (arith, left_after-lt pending c rest e)))

  index_calls-ok :
      (seen : List Text) (cs : List PendingToolCall)
      → Distinct (ids_of cs)
      → Apart seen (ids_of cs)
      → (known : List Text) × (index_calls seen cs ≡ ok known)
        × ((d : Text) → has_key known d ≡ (has_key (ids_of cs) d || has_key seen d))
  unfolding index_calls
  index_calls-ok seen [] distinct apart = (seen, refl, λ d. refl)
  index_calls-ok seen (c ∷ cs) distinct apart =
      let (known, e, keys) =
        index_calls-ok (c.id ∷ seen) cs distinct.1
          (Apart-cons seen (ids_of cs) c.id apart.1 distinct.0) in
      (known, rw (apart.0, e), λ d. keys d ∙ ground arith)

  -- A batch with distinct IDs, whose references all name another call of the batch with a smaller
  -- rank, is scheduled.
  pub schedule-ok :
      (calls : List PendingToolCall)
      → Distinct (ids_of calls)
      → Acyclic (ids_of calls) calls
      → (waves : Waves) × (schedule_tool_calls calls ≡ ok waves)
  unfolding schedule_tool_calls
  schedule-ok calls distinct acyclic =
      let (known, e, keys) = index_calls-ok [] calls distinct (Apart-nil (ids_of calls)) in
      let falls =
        All-map calls
          (λ c h. All-map (parse_refs c.args_json) (λ r g. (keys r.ref_id ∙ ground arith, g.1)) h)
          acyclic in
      let (nodes, q, lows) = build_nodes-ok known calls falls in
      let same_calls = calls_of-build_nodes calls known nodes q in
      let (waves, done) =
        layers-ok (length calls) [] nodes (build_nodes-Inv calls known nodes e q)
          (All-map nodes
            (λ n low.
              Low-deps [] known [] (ids_of (calls_of nodes)) (rank n.call.id) n.deps
                (λ d h. rw same_calls (ground (arith, keys d))) low)
            lows)
          (omega (arith, length-calls_of nodes, ap length same_calls)) in
      (waves, rw (e, q, done))
