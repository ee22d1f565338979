-- ===== src/Execution/Resume.antt =====
-- pkg/agent/resume.go: the calls that wait for a human, and the turn that is read back from a
-- stored transcript.
use gopheragent.Base.{
  ℕ, suc, Bool, true, false, not, List, [], ◌∷◌, map, filter_by, Option, none, some, if◌then◌else◌,
  drop, get_elem?, put,
}
use gopheragent.History.{Message, ToolCall, has_role, role_tool}
use gopheragent.Permission.Rules.{Decision, prompt, allow, deny, confirm}
use gopheragent.Scheduler.{PendingToolCall}
use gopheragent.Request.Dangling.{has_id, is_call_turn}
use gopheragent.Execution.State.{WaveState}
use gopheragent.Execution.Host.{ToolDescriptor, Host}
use gopheragent.Execution.Call.{permission_of}

-- Whether a call would stop at the gate.
abbrev pub would_stop : ToolDescriptor → Decision → Bool
would_stop desc allow = false
would_stop desc deny = false
would_stop desc prompt = desc.requires_confirmation
would_stop desc confirm = true

unfoldable pub needs_approval : Host → PendingToolCall → Bool
needs_approval h tc = elim (h.lookup tc.name) [
  | none ↦ false
  | some desc ↦ would_stop desc (permission_of h tc)
]

abbrev pub pending_call : ToolCall → PendingToolCall
pending_call c = record { id = c.id; name = c.name; args_json = c.arguments }

abbrev pub pending_calls_of : Message → List PendingToolCall
pending_calls_of m = map pending_call m.tool_calls

-- Where the loop from the end stops: at the last message that is no tool message.
unfoldable pub last_other : List Message → Option ℕ
last_other [] = none
last_other (m ∷ ms) = elim (last_other ms) [
  | some i ↦ some (suc i)
  | none ↦ if has_role role_tool m then none else some 0
]

abbrev pub unanswered_calls : List Message → List PendingToolCall → List PendingToolCall
unanswered_calls replies calls =
    filter_by (λ c. not (has_id (map (λ (m : Message). m.tool_call_id) replies) c.id)) calls

abbrev pub pending_at : ℕ → List PendingToolCall → Option (ℕ × List PendingToolCall)
pending_at i [] = none
pending_at i (c ∷ cs) = some (i, c ∷ cs)

unfoldable pub pending_tool_turn : List Message → Option (ℕ × List PendingToolCall)
unfolding last_other
pending_tool_turn msgs = elim (last_other msgs) [
  | none ↦ none
  | some i ↦ elim (get_elem? msgs i) [
    | none ↦ none
    | some m ↦
        if is_call_turn m
        then pending_at i (unanswered_calls (drop (suc i) msgs) (pending_calls_of m))
        else none
  ]
]

-- The results of a stored turn, as the wave that Resume continues.
unfoldable pub seeded_wave_state : List Message → WaveState → WaveState
seeded_wave_state [] ws = ws
seeded_wave_state (m ∷ results) ws = seeded_wave_state results (record ws {
  tool_msgs = put m.tool_call_id m ws.tool_msgs;
  results_by_id =
      if m.is_error then ws.results_by_id else put m.tool_call_id m.content ws.results_by_id;
})
