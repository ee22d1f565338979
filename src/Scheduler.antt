-- ===== src/Scheduler.antt =====
-- pkg/agent/scheduler.go, scheduleToolCalls: tool calls in waves that respect their references.
-- The three maps keyed by call ID (the dependency sets, the indegrees and the positions in the
-- input) are one list of nodes in the order of the input: the sort of the ready IDs by position
-- makes the order in which Go visits a map irrelevant.
use gopheragent.Base.{
  ℕ, zero, suc, ◌-◌, Bool, true, false, not, List, [], ◌∷◌, map, ◌==◌, if◌then◌else◌, any,
  filter_by, length, Text, same, Result, ok, err, ◌>>=◌,
}
use gopheragent.Scheduler.Refs.{OutputRef, parse_refs}
pub mod Refs
pub mod Counts
pub mod Layers
pub mod Nodes
pub mod Order
pub mod Cycles
mod Ends
mod Tests

pub record PendingToolCall : Type 0 where
  pub id : Text
  pub name : Text
  pub args_json : Text

pub data ScheduleError : Type 0 where
  duplicate_id : Text → ScheduleError
  unknown_reference : Text → Text → ScheduleError
  self_reference : Text → ScheduleError
  cycle_detected : ScheduleError
  out_of_fuel : ScheduleError

-- A call that is in no wave yet, the IDs it depends on, and its indegree.
pub record Node : Type 0 where
  pub call : PendingToolCall
  pub deps : List Text
  pub indeg : ℕ

abbrev pub has_key : List Text → Text → Bool
has_key ids id = any (λ i. same i id) ids

abbrev pub ids_of : List PendingToolCall → List Text
ids_of = map (λ c. c.id)

-- The first loop: `seen` are the keys of byID.
unfoldable pub index_calls : List Text → List PendingToolCall → Result ScheduleError (List Text)
index_calls seen [] = ok seen
index_calls seen (c ∷ cs) =
    let rest = index_calls (c.id ∷ seen) cs in
    if has_key seen c.id then err (duplicate_id c.id) else rest

-- The dependencies of one call: every reference names another call of the batch, and is counted
-- once. Each new dependency raises the indegree by one.
unfoldable pub add_deps : List Text → Node → List OutputRef → Result ScheduleError Node
add_deps known n [] = ok n
add_deps known n (r ∷ rs) =
    let skipped = add_deps known n rs in
    let counted = add_deps known (record n { deps = r.ref_id ∷ n.deps; indeg = suc n.indeg }) rs in
    if not (has_key known r.ref_id)
    then err (unknown_reference n.call.id r.ref_id)
    else if same r.ref_id n.call.id
    then err (self_reference n.call.id)
    else if has_key n.deps r.ref_id
    then skipped
    else counted

abbrev pub fresh_node : PendingToolCall → Node
fresh_node c = record { call = c; deps = []; indeg = 0 }

unfoldable pub build_nodes : List Text → List PendingToolCall → Result ScheduleError (List Node)
build_nodes known [] = ok []
build_nodes known (c ∷ cs) = do
  n ← add_deps known (fresh_node c) (parse_refs c.args_json)
  ns ← build_nodes known cs
  ok (n ∷ ns)

abbrev pub is_ready : Node → Bool
is_ready n = n.indeg == 0

-- One decrement for every call of the wave that the node depends on.
unfoldable pub release : List PendingToolCall → Node → Node
release [] n = n
release (c ∷ wave) n =
    release wave (if has_key n.deps c.id then record n { indeg = n.indeg - 1 } else n)

abbrev pub calls_of : List Node → List PendingToolCall
calls_of = map (λ n. n.call)

abbrev pub wave_of : List Node → List PendingToolCall
wave_of pending = calls_of (filter_by is_ready pending)

abbrev pub waiting : List Node → List Node
waiting pending = filter_by (λ n. not (is_ready n)) pending

abbrev pub Waves : Type 0
Waves = List (List PendingToolCall)

-- One round: with no ready call there is a cycle, else the wave leaves and the others are released.
unfoldable pub next_round :
    (List Node → Result ScheduleError Waves)
    → List Node
    → List PendingToolCall
    → Result ScheduleError Waves
next_round continue pending [] = err cycle_detected
next_round continue pending (c ∷ wave) = do
  rest ← continue (map (release (c ∷ wave)) (waiting pending))
  ok ((c ∷ wave) ∷ rest)

-- The layered loop, on the number of rounds left.
unfoldable pub layers : ℕ → List Node → Result ScheduleError Waves
layers f [] = ok []
layers zero (n ∷ ns) = err out_of_fuel
layers (suc f) (n ∷ ns) = next_round (layers f) (n ∷ ns) (wave_of (n ∷ ns))

unfoldable pub schedule_tool_calls : List PendingToolCall → Result ScheduleError Waves
schedule_tool_calls calls = do
  known ← index_calls [] calls
  nodes ← build_nodes known calls
  layers (length calls) nodes
