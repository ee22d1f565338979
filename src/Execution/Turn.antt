-- ===== src/Execution/Turn.antt =====
-- pkg/agent/loop_iteration.go and loop_iteration_helpers.go: the turn around its tool calls.
use gopheragent.Base.{
  ℕ, suc, ◌||◌, List, [], ◌∷◌, none, some, Text, if◌then◌else◌, length, take, drop, leb, ◌==◌,
}
use gopheragent.History.{Message}
use gopheragent.AntiLoop.{Verdict}
use gopheragent.Scheduler.{PendingToolCall}
use gopheragent.Execution.State.{
  WaveState, append_tool_results_in_order, synthesize_dropped_tool_errors,
  synthesize_missing_tool_errors,
}
use gopheragent.Execution.Host.{Host, World}
use gopheragent.Execution.Dispatch.{execute_tool_call}

-- The calls that are scheduled, and the dropped ones. Go's int limit is unset at 0 or below.
unfoldable pub apply_tool_call_budget :
    ℕ → List PendingToolCall → List PendingToolCall × List PendingToolCall
apply_tool_call_budget limit calls =
    if limit == 0 || leb (length calls) limit
    then (calls, [])
    else (take limit calls, drop limit calls)

-- The goroutines of a turn, in the order in which they run.
unfoldable pub run_calls : Host → List PendingToolCall → World → World
run_calls h [] w = w
run_calls h (tc ∷ order) w = run_calls h order (execute_tool_call h tc w)

pub data TurnEnd : Type 0 where
  goes_on : TurnEnd
  loop_detected : Verdict → TurnEnd
  approval_pending : ℕ → TurnEnd

unfoldable pub turn_end : List PendingToolCall → TurnEnd
turn_end [] = goes_on
turn_end (tc ∷ pending) = approval_pending (suc (length pending))

-- The transcript behind the turn, and how the turn ends.
unfoldable pub record_tool_turn :
    Text
    → Text
    → List Message
    → List PendingToolCall
    → List PendingToolCall
    → WaveState
    → List Message × TurnEnd
unfolding append_tool_results_in_order turn_end
record_tool_turn abort_reason dropped_text msgs calls dropped ws = elim ws.fatal_err [
  | none ↦ (
    append_tool_results_in_order msgs calls
        (synthesize_dropped_tool_errors dropped dropped_text ws.tool_msgs),
    turn_end ws.pending,
  )
  | some v ↦ (
    append_tool_results_in_order msgs calls
        (synthesize_missing_tool_errors calls abort_reason ws.tool_msgs),
    loop_detected v,
  )
]
