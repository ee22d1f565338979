-- ===== src/Request/Dangling.antt =====
-- pkg/agent/pruning.go: hasDanglingToolCalls and patchDanglingToolCalls. The jump `i = j - 1` over
-- the replies of an assistant turn is a count of messages to skip.
use gopheragent.Base.{
  ℕ, zero, suc, Bool, true, false, not, ◌&&◌, ◌||◌, List, [], ◌∷◌, ◌++◌, if◌then◌else◌, Text, codes,
  same, any, length,
}
use gopheragent.History.{
  Message, ToolCall, plain_message, has_role, role_user, role_assistant, role_tool,
}
pub mod Paired
pub mod Patched
mod Tests

-- The inner loop stops at the next turn.
abbrev pub starts_turn : Message → Bool
starts_turn m = has_role role_assistant m || has_role role_user m

-- The messages between an assistant turn and the next turn.
unfoldable pub block : List Message → List Message
block [] = []
block (m ∷ ms) = if starts_turn m then [] else m ∷ block ms

abbrev pub is_empty : Text → Bool
is_empty [] = true
is_empty (c ∷ s) = false

abbrev pub is_reply : Message → Bool
is_reply m = has_role role_tool m && not (is_empty m.tool_call_id)

-- The keys of the map `responded`.
unfoldable pub responded : List Message → List Text
responded [] = []
responded (m ∷ ms) = if is_reply m then m.tool_call_id ∷ responded ms else responded ms

abbrev pub has_id : List Text → Text → Bool
has_id ids id = any (λ i. same i id) ids

abbrev pub unanswered : List Text → List ToolCall → Bool
unanswered ids calls = any (λ c. not (has_id ids c.id)) calls

abbrev pub has_calls : Message → Bool
has_calls m = elim m.tool_calls [ [] ↦ false | c ∷ cs ↦ true ]

abbrev pub is_call_turn : Message → Bool
is_call_turn m = has_role role_assistant m && has_calls m

unfoldable pub dangling_from : ℕ → List Message → Bool
dangling_from k [] = false
dangling_from (suc k) (m ∷ ms) = dangling_from k ms
dangling_from zero (m ∷ ms) =
    let next = dangling_from zero ms in
    let behind = dangling_from (length (block ms)) ms in
    if is_call_turn m
    then (if unanswered (responded (block ms)) m.tool_calls then true else behind)
    else next

unfoldable pub has_dangling_tool_calls : List Message → Bool
unfolding dangling_from
has_dangling_tool_calls = dangling_from zero

abbrev pub cancelled_text : Text
cancelled_text = codes "[System] Tool call cancelled due to system interruption."

abbrev pub cancelled : ToolCall → Message
cancelled c = record (plain_message role_tool cancelled_text) {
  tool_call_id = c.id;
  is_error = true;
}

-- The synthetic replies, in the order of the calls.
unfoldable pub synthetic : List Text → List ToolCall → List Message
synthetic ids [] = []
synthetic ids (c ∷ cs) =
    if has_id ids c.id then synthetic ids cs else cancelled c ∷ synthetic ids cs

-- The rebuilding loop.
unfoldable pub rebuild : ℕ → List Message → List Message
rebuild k [] = []
rebuild (suc k) (m ∷ ms) = rebuild k ms
rebuild zero (m ∷ ms) =
    let next = m ∷ rebuild zero ms in
    let patched =
      m ∷ block ms
      ++ (synthetic (responded (block ms)) m.tool_calls ++ rebuild (length (block ms)) ms) in
    if is_call_turn m then patched else next

unfoldable pub patch_dangling_tool_calls : List Message → List Message
unfolding rebuild has_dangling_tool_calls
patch_dangling_tool_calls ms = if has_dangling_tool_calls ms then rebuild zero ms else ms
