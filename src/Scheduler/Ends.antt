-- ===== src/Scheduler/Ends.antt =====
-- How the layered loop ends.
use gopheragent.Base.{
  ℕ, zero, suc, ◌≤◌, ◌≡◌, refl, ap, subst, List, [], ◌∷◌, map, arith, if_both, not, Text, same,
  length, Result, ok, err, ◌>>=◌,
}
use gopheragent.Scheduler.{
  PendingToolCall, Node, ScheduleError, out_of_fuel, duplicate_id, unknown_reference,
  self_reference, cycle_detected, has_key, fresh_node, wave_of, waiting, release, add_deps,
  index_calls, build_nodes, next_round, Waves, layers, schedule_tool_calls,
}
use gopheragent.Scheduler.Refs.{OutputRef, parse_refs}
use gopheragent.Scheduler.Cycles.{length-calls_of}
use gopheragent.Scheduler.Nodes.{calls_of-build_nodes}
use gopheragent.Scheduler.Layers.{left_after, left_after-lt}

-- The rounds did not run out.
abbrev pub Ends : {A : Type 0} → Result ScheduleError A → Type 0
Ends (ok a) = Unit
Ends (err (duplicate_id id)) = Unit
Ends (err (unknown_reference id ref)) = Unit
Ends (err (self_reference id)) = Unit
Ends (err cycle_detected) = Unit
Ends (err out_of_fuel) = ⊥

>>=-Ends :
    {A B : Type 0} (r : Result ScheduleError A) (f : A → Result ScheduleError B)
    → Ends r
    → ((a : A) → r ≡ ok a → Ends (f a))
    → Ends (r >>= f)
>>=-Ends (ok a) f h next = next a refl
>>=-Ends (err (duplicate_id id)) f h next = tt
>>=-Ends (err (unknown_reference id ref)) f h next = tt
>>=-Ends (err (self_reference id)) f h next = tt
>>=-Ends (err cycle_detected) f h next = tt
>>=-Ends (err out_of_fuel) f h next = h

index_calls-Ends : (seen : List Text) (calls : List PendingToolCall) → Ends (index_calls seen calls)
unfolding index_calls
index_calls-Ends seen [] = tt
index_calls-Ends seen (c ∷ cs) =
    let rest = index_calls-Ends (c.id ∷ seen) cs in
    if_both Ends (has_key seen c.id) (λ _. tt) (λ _. rest)

add_deps-Ends : (known : List Text) (n : Node) (rs : List OutputRef) → Ends (add_deps known n rs)
unfolding add_deps
add_deps-Ends known n [] = tt
add_deps-Ends known n (r ∷ rs) =
    let skipped = add_deps-Ends known n rs in
    let counted =
      add_deps-Ends known (record n { deps = r.ref_id ∷ n.deps; indeg = suc n.indeg }) rs in
    if_both Ends (not (has_key known r.ref_id)) (λ _. tt)
      (λ _.
        if_both Ends (same r.ref_id n.call.id) (λ _. tt)
          (λ _. if_both Ends (has_key n.deps r.ref_id) (λ _. skipped) (λ _. counted)))

build_nodes-Ends :
    (known : List Text) (calls : List PendingToolCall) → Ends (build_nodes known calls)
unfolding build_nodes
build_nodes-Ends known [] = tt
build_nodes-Ends known (c ∷ cs) =
    >>=-Ends (add_deps known (fresh_node c) (parse_refs c.args_json)) _
      (add_deps-Ends known (fresh_node c) (parse_refs c.args_json))
      (λ n _. >>=-Ends (build_nodes known cs) _ (build_nodes-Ends known cs) (λ ns _. tt))

next_round-Ends :
    (continue : List Node → Result ScheduleError Waves) (pending : List Node)
    (wave : List PendingToolCall)
    → wave_of pending ≡ wave
    → ((c : PendingToolCall) (rest : List PendingToolCall)
        → wave_of pending ≡ c ∷ rest
        → Ends (continue (left_after pending)))
    → Ends (next_round continue pending wave)
unfolding next_round
next_round-Ends continue pending [] e go = tt
next_round-Ends continue pending (c ∷ wave) e go =
    >>=-Ends (continue (map (release (c ∷ wave)) (waiting pending))) _
      (subst (λ w. Ends (continue (map (release w) (waiting pending)))) e (go c wave e))
      (λ rest _. tt)

layers-Ends : (f : ℕ) (pending : List Node) → length pending ≤ f → Ends (layers f pending)
unfolding layers
layers-Ends zero [] h = tt
layers-Ends (suc f) [] h = tt
layers-Ends zero (n ∷ ns) h = absurd (omega arith)
layers-Ends (suc f) (n ∷ ns) h =
    next_round-Ends (layers f) (n ∷ ns) (wave_of (n ∷ ns)) refl (λ c rest e.
      layers-Ends f (left_after (n ∷ ns)) (omega (arith, left_after-lt (n ∷ ns) c rest e)))

-- Every batch is scheduled or refused for a fault of its own, a cycle among them: the rounds of the
-- loop never run out.
schedule-Ends : (calls : List PendingToolCall) → Ends (schedule_tool_calls calls)
unfolding schedule_tool_calls
schedule-Ends calls = >>=-Ends (index_calls [] calls) _ (index_calls-Ends [] calls) (λ known _.
    >>=-Ends (build_nodes known calls) _ (build_nodes-Ends known calls) (λ nodes e.
      layers-Ends (length calls) nodes (
        omega
          (arith, length-calls_of nodes, ap length (calls_of-build_nodes calls known nodes e)))))
