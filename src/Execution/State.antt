-- ===== src/Execution/State.antt =====
-- pkg/agent/loop_state.go: what the tool calls of one turn share, and the messages that the turn
-- adds to the transcript. A map is a table of entries, and a Go pointer that may be nil an option.
use gopheragent.Base.{
  Bool, true, false, List, [], ◌∷◌, ◌++◌, map, Option, none, some, if◌then◌else◌, Text, same, find,
  put,
}
use gopheragent.History.{Message, ToolCall, plain_message, role_assistant, role_tool}
use gopheragent.Scheduler.{PendingToolCall}
use gopheragent.AntiLoop.{Verdict}

pub record WaveState : Type 0 where
  pub tool_msgs : List (Text × Message)
  pub results_by_id : List (Text × Text)
  pub fatal_err : Option Verdict
  pub pending : List PendingToolCall

abbrev pub new_wave_state : WaveState
new_wave_state = record { tool_msgs = []; results_by_id = []; fatal_err = none; pending = [] }

unfoldable pub record_tool_msg : Text → Message → Bool → WaveState → WaveState
record_tool_msg id msg is_result ws =
    if is_result
    then record ws {
      tool_msgs = put id msg ws.tool_msgs;
      results_by_id = put id msg.content ws.results_by_id;
    }
    else record ws { tool_msgs = put id msg ws.tool_msgs }

unfoldable pub mark_pending : PendingToolCall → WaveState → WaveState
mark_pending tc ws = record ws { pending = ws.pending ++ tc ∷ [] }

-- The first writer wins.
unfoldable pub set_fatal : Verdict → WaveState → WaveState
set_fatal v ws = elim ws.fatal_err [ none ↦ record ws { fatal_err = some v } | some _ ↦ ws ]

abbrev pub is_done : WaveState → PendingToolCall → Bool
is_done ws tc = elim (find tc.id ws.tool_msgs) [ none ↦ false | some _ ↦ true ]

unfoldable pub unfinished : WaveState → List PendingToolCall → List PendingToolCall
unfinished ws [] = []
unfinished ws (tc ∷ wave) = if is_done ws tc then unfinished ws wave else tc ∷ unfinished ws wave

abbrev pub history_call : PendingToolCall → ToolCall
history_call tc = record { id = tc.id; name = tc.name; arguments = tc.args_json }

abbrev pub call_message : Text → List PendingToolCall → Message
call_message content calls = record (plain_message role_assistant content) {
  tool_calls = map history_call calls;
}

unfoldable pub append_assistant_tool_call_msg :
    List Message → Text → List PendingToolCall → List Message
append_assistant_tool_call_msg msgs content calls = msgs ++ call_message content calls ∷ []

-- `ok && m.Role != ""`
abbrev pub found : Text → List (Text × Message) → Option Message
found id tool_msgs = elim (find id tool_msgs) [
  | none ↦ none
  | some m ↦ if same m.role [] then none else some m
]

abbrev pub prepend_found : Option Message → List Message → List Message
prepend_found none ms = ms
prepend_found (some m) ms = m ∷ ms

unfoldable pub results_in_order : List PendingToolCall → List (Text × Message) → List Message
results_in_order [] tool_msgs = []
results_in_order (tc ∷ calls) tool_msgs =
    prepend_found (found tc.id tool_msgs) (results_in_order calls tool_msgs)

unfoldable pub append_tool_results_in_order :
    List Message → List PendingToolCall → List (Text × Message) → List Message
unfolding results_in_order
append_tool_results_in_order msgs calls tool_msgs = msgs ++ results_in_order calls tool_msgs

-- A tool message that reports a failure.
abbrev pub error_reply : PendingToolCall → Text → Message
error_reply tc text = record (plain_message role_tool text) {
  tool_call_id = tc.id;
  is_error = true;
}

unfoldable pub synthesize_dropped_tool_errors :
    List PendingToolCall → Text → List (Text × Message) → List (Text × Message)
synthesize_dropped_tool_errors [] text tool_msgs = tool_msgs
synthesize_dropped_tool_errors (tc ∷ dropped) text tool_msgs =
    synthesize_dropped_tool_errors dropped text (put tc.id (error_reply tc text) tool_msgs)

unfoldable pub synthesize_missing_tool_errors :
    List PendingToolCall → Text → List (Text × Message) → List (Text × Message)
synthesize_missing_tool_errors [] reason tool_msgs = tool_msgs
synthesize_missing_tool_errors (tc ∷ calls) reason tool_msgs =
    synthesize_missing_tool_errors calls reason (elim (found tc.id tool_msgs) [
      | some _ ↦ tool_msgs
      | none ↦ put tc.id (error_reply tc reason) tool_msgs
    ])
