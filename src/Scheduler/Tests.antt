-- ===== src/Scheduler/Tests.antt =====
-- Scheduling at concrete batches.
use mathlib.Core.List.{Perm, flatten}
use gopheragent.Base.{
  ℕ, true, ◌≡◌, refl, List, [], ◌∷◌, arith, Text, codes, same, text_discrete, ok, err,
  if◌then◌else◌,
}
use gopheragent.Scheduler.{
  PendingToolCall, Waves, cycle_detected, unknown_reference, schedule_tool_calls, index_calls,
  build_nodes, add_deps, layers, next_round, release, ids_of,
}
use gopheragent.Scheduler.Refs.{parse_refs}
use gopheragent.Scheduler.Order.{Ordered, schedule-Ordered}
use gopheragent.Scheduler.Cycles.{Acyclic, schedule-ok}

abbrev fetch_user : PendingToolCall
fetch_user = record { id = codes "t1"; name = codes "fetch_user"; args_json = codes "{}" }

abbrev fetch_orders : PendingToolCall
fetch_orders = record {
  id = codes "t2";
  name = codes "fetch_orders";
  args_json = codes "{<output_of:t1.id>,<output_of:t1>}";
}

abbrev batch : List PendingToolCall
batch = fetch_orders ∷ fetch_user ∷ []

abbrev waves : Waves
waves = (fetch_user ∷ []) ∷ (fetch_orders ∷ []) ∷ []

finds_both :
    parse_refs fetch_orders.args_json
    ≡ record { ref_id = codes "t1"; path = codes "id" }
      ∷ record { ref_id = codes "t1"; path = [] }
      ∷ []
unfolding parse_refs
finds_both = refl

two_waves : schedule_tool_calls batch ≡ ok waves
unfolding schedule_tool_calls index_calls build_nodes add_deps layers next_round release parse_refs
    text_discrete
two_waves = refl

abbrev looped : PendingToolCall
looped = record { id = codes "t1"; name = codes "f"; args_json = codes "<output_of:t2>" }

finds_the_cycle : schedule_tool_calls (fetch_orders ∷ looped ∷ []) ≡ err cycle_detected
unfolding schedule_tool_calls index_calls build_nodes add_deps layers next_round release parse_refs
    text_discrete
finds_the_cycle = refl

unknown_id :
    schedule_tool_calls (fetch_orders ∷ []) ≡ err (unknown_reference (codes "t2") (codes "t1"))
unfolding schedule_tool_calls index_calls build_nodes add_deps layers next_round release parse_refs
    text_discrete
unknown_id = refl

schedule-Ordered_example : Ordered [] waves × Perm (flatten waves) batch
schedule-Ordered_example = schedule-Ordered batch waves two_waves

-- `t1` below all others.
abbrev rank : Text → ℕ
rank id = if same id (codes "t1") then 0 else 1

finds_none : parse_refs fetch_user.args_json ≡ []
unfolding parse_refs
finds_none = refl

batch-Acyclic : Acyclic rank (ids_of batch) batch
unfolding text_discrete
batch-Acyclic =
    rw (finds_both, finds_none)
      (((refl {a = true}, omega arith), ((refl {a = true}, omega arith), tt)), (tt, tt))

schedule-ok_example : (ws : Waves) × (schedule_tool_calls batch ≡ ok ws)
unfolding text_discrete
schedule-ok_example = schedule-ok rank batch (refl, (refl, tt)) batch-Acyclic
