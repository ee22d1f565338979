-- ===== src/Session/Boundary.antt =====
-- pkg/history/fork.go: snapToSafeBoundary, where Fork and Regenerate cut a history.
use gopheragent.Base.{
  ℕ, zero, suc, ◌-◌, min, Bool, true, false, ◌&&◌, ◌||◌, not, List, [], ◌∷◌, ◌++◌, map, Option,
  none, some, if◌then◌else◌, length, take, drop, get_elem?, Text, same, filter_by,
}
use gopheragent.History.{
  Message, ToolCall, has_role, role_system, role_user, role_assistant, role_tool,
}
pub mod Stop
pub mod Scan
pub mod Safe
pub mod Positions

-- An assistant message with tool calls.
abbrev pub calls_tools : Message → Bool
calls_tools m = has_role role_assistant m && elim m.tool_calls [ [] ↦ false | ◌∷◌ _ _ ↦ true ]

abbrev pub ends_scan : Message → Bool
ends_scan m = has_role role_user m || has_role role_system m

-- The loop from `n - 1` down for the assistant message of a tool result.
unfoldable pub assistant_before : List Message → ℕ → Option ℕ
assistant_before msgs zero = none
assistant_before msgs (suc i) =
    let further = assistant_before msgs i in
    elim (get_elem? msgs i) [
      | none ↦ further
      | some m ↦ if calls_tools m then some i else if ends_scan m then none else further
    ]

abbrev pub ids_of : List ToolCall → List Text
ids_of calls = map (λ (c : ToolCall). c.id) calls

-- `delete(required, id)` for each tool message.
abbrev pub still_required : List Text → List Message → List Text
still_required required [] = required
still_required required (m ∷ ms) =
    if has_role role_tool m
    then still_required (filter_by (λ id. not (same m.tool_call_id id)) required) ms
    else still_required required ms

abbrev pub calls_at : List Message → ℕ → List ToolCall
calls_at msgs i = elim (get_elem? msgs i) [ none ↦ [] | some m ↦ m.tool_calls ]

-- The group of a trailing tool result at `e`: kept when it is whole, cut before its assistant
-- message otherwise.
abbrev pub group_end : List Message → ℕ → Option ℕ → Option ℕ
group_end msgs e none = some e
group_end msgs e (some asst) =
    elim (still_required (ids_of (calls_at msgs asst)) (drop (suc asst) (take (suc e) msgs))) [
      | [] ↦ none
      | ◌∷◌ _ _ ↦ some asst
    ]

-- Where one round of the loop moves an end that is `suc e`, or none where it stops.
unfoldable pub next_end : List Message → ℕ → Option ℕ
unfolding assistant_before
next_end msgs e = elim (get_elem? msgs e) [
  | none ↦ none
  | some last ↦
      if calls_tools last
      then some e
      else if has_role role_tool last
      then group_end msgs e (assistant_before msgs e)
      else none
]

unfoldable pub snap_loop : ℕ → List Message → ℕ → ℕ
unfolding next_end
snap_loop zero msgs end = 0
snap_loop (suc fuel) msgs zero = 0
snap_loop (suc fuel) msgs (suc e) = elim (next_end msgs e) [
  | none ↦ suc e
  | some lower ↦ snap_loop fuel msgs lower
]

-- One round for each message is enough.
unfoldable pub snap_to_safe_boundary : List Message → ℕ → ℕ
unfolding snap_loop
snap_to_safe_boundary msgs at = let end = min at (length msgs) in snap_loop end msgs end
