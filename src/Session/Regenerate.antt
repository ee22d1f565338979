-- ===== src/Session/Regenerate.antt =====
-- pkg/agent/regenerate.go: what Regenerate and Continue do to a stored history before the loop
-- runs again. The session store is whatever answers History and SaveHistory, errors included.
use gopheragent.Base.{
  ℕ, zero, suc, ◌-◌, Bool, true, false, ◌||◌, List, [], ◌∷◌, Option, none, some, if◌then◌else◌,
  length, take, get_elem?, get_or, Text, Result, ok, err,
}
use gopheragent.History.{Message, plain_message, has_role, role_user, role_assistant, role_tool}
use gopheragent.Request.Dangling.{has_calls, patch_dangling_tool_calls}
use gopheragent.Session.Boundary.{snap_to_safe_boundary}
pub mod Last
pub mod Sound

-- The calls of `al.Sessions`, on a store of type `S`; a save answers with its error, if any.
pub record Sessions (S : Type 0) : Type 0 where
  pub load : Text → S → Result Text (List Message) × S
  pub save : Text → List Message → S → Option Text × S

-- The loops of lastUserIndex and lastAssistantIndex from `n - 1` down; none for -1.
unfoldable pub last_index : Text → List Message → ℕ → Option ℕ
last_index role msgs zero = none
last_index role msgs (suc i) =
    let further = last_index role msgs i in
    elim (get_elem? msgs i) [
      | none ↦ further
      | some m ↦ if has_role role m then some i else further
    ]

unfoldable pub last_user_index : List Message → Option ℕ
unfolding last_index
last_user_index msgs = last_index role_user msgs (length msgs)

unfoldable pub last_assistant_index : List Message → Option ℕ
unfolding last_index
last_assistant_index msgs = last_index role_assistant msgs (length msgs)

pub data RegenerateError : Type 0 where
  load_failed : Text → RegenerateError
  nothing_to_regenerate : RegenerateError

-- The fields of the first event, with the message that the loop is run on.
pub record Regeneration : Type 0 where
  pub user_msg : Message
  pub previous_assistant_index : Option ℕ
  pub truncated_at : ℕ

-- An error of the save is logged and dropped.
abbrev pub save_session : {S : Type 0} → Sessions S → Text → List Message → S → S
save_session s key msgs st = (s.save key msgs st).1

abbrev pub regenerate_from :
    {S : Type 0}
    → Sessions S
    → Text
    → List Message
    → ℕ
    → S
    → Result RegenerateError Regeneration × S
regenerate_from s key existing i st =
    let truncated_at = snap_to_safe_boundary existing i in
    (
      ok (record {
        user_msg = get_or existing i (plain_message [] []);
        previous_assistant_index = last_assistant_index existing;
        truncated_at = truncated_at;
      }),
      save_session s key (take truncated_at existing) st,
    )

-- Regenerate, behind its call of History.
unfoldable pub regenerate_loaded :
    {S : Type 0}
    → Sessions S
    → Text
    → Result Text (List Message) × S
    → Result RegenerateError Regeneration × S
unfolding last_user_index last_assistant_index
regenerate_loaded s key (err e, st) = (err (load_failed e), st)
regenerate_loaded s key (ok existing, st) = elim (last_user_index existing) [
  | none ↦ (err nothing_to_regenerate, st)
  | some i ↦ regenerate_from s key existing i st
]

unfoldable pub regenerate :
    {S : Type 0} → Sessions S → Text → S → Result RegenerateError Regeneration × S
unfolding regenerate_loaded
regenerate s key st = regenerate_loaded s key (s.load key st)

unfoldable pub can_continue : List Message → Bool
can_continue msgs = elim (get_elem? msgs (length msgs - 1)) [
  | none ↦ false
  | some last ↦
      if has_role role_assistant last
      then has_calls last
      else has_role role_user last || has_role role_tool last
]

pub data ContinueError : Type 0 where
  load_history_failed : Text → ContinueError
  save_history_failed : Text → ContinueError
  nothing_to_continue : ContinueError

-- Continue, up to the index of its first event.
unfoldable pub continue_session : {S : Type 0} → Sessions S → Text → S → Result ContinueError ℕ × S
unfolding can_continue
continue_session s key st =
    let (answer, st') = s.load key st in
    elim answer [
      | err e ↦ (err (load_history_failed e), st')
      | ok existing ↦
          (if can_continue existing then ok (length existing - 1) else err nothing_to_continue, st')
    ]

-- continueLogicLoop, behind its call of History, up to the messages that it hands to
-- iterateMessages.
unfoldable pub continue_loaded :
    {S : Type 0}
    → Sessions S
    → Text
    → Result Text (List Message) × S
    → Result ContinueError (List Message) × S
unfolding patch_dangling_tool_calls
continue_loaded s key (err e, st) = (err (load_history_failed e), st)
continue_loaded s key (ok msgs, st) =
    let patched = patch_dangling_tool_calls msgs in
    let (saved, st') = s.save key patched st in
    (elim saved [ some e ↦ err (save_history_failed e) | none ↦ ok patched ], st')

unfoldable pub continue_logic_loop :
    {S : Type 0} → Sessions S → Text → S → Result ContinueError (List Message) × S
unfolding continue_loaded
continue_logic_loop s key st = continue_loaded s key (s.load key st)
