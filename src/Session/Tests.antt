-- ===== src/Session/Tests.antt =====
-- Runs of the session store and witnesses of its theorems.
use gopheragent.Base.{
  ℕ, ◌+◌, ◌||◌, ◌==◌, ltb, get_elem?, if◌then◌else◌, In, zero, suc, ◌≡◌, ◌≤◌, refl, ◌↔◌, true,
  false, List, [], ◌∷◌, none, some, Text, codes, same, text_discrete, ok, err, arith, take, min,
  length, find,
}
use mathlib.Core.Bool.{true≢false}
use gopheragent.History.{Message, plain_message, role_system, role_user, role_assistant, role_tool}
use gopheragent.Request.Dangling.{has_dangling_tool_calls, responded, block}
use gopheragent.Request.Dangling.Paired.{Paired, has_dangling_iff}
use gopheragent.Session.Boundary.{snap_to_safe_boundary, snap_loop, next_end, assistant_before}
use gopheragent.Session.Boundary.Scan.{Settled}
use gopheragent.Session.Boundary.Stop.{Course}
use gopheragent.Session.Boundary.Safe.{snap_to_safe_boundary-Paired}
use gopheragent.Request.Dangling.Patched.{CallsNamed}
use gopheragent.Session.Regenerate.{
  Sessions, regenerate, regenerate_loaded, last_user_index, last_assistant_index, last_index,
  continue_session, can_continue, continue_logic_loop, nothing_to_continue,
}
use gopheragent.Session.Regenerate.Sound.{
  Regenerated, regenerate-Regenerated, Sealed, continue_logic_loop-Sealed,
}
use gopheragent.Session.Manager.{
  InMemSessionManager, save_history, history, prompt_of, fork, soft_delete, evict_expired,
  evict_each,
}
use gopheragent.Session.Manager.Slots.{slot_of, Changes}
use gopheragent.Session.Manager.Ops.{saving, effect, run, run-Changes}
use gopheragent.Session.Manager.Forks.{fork-Paired, ReadsAs, history-save}
use gopheragent.Session.Manager.Evict.Idle.{Evicts, evict_expired-Evicts}
use gopheragent.Session.Manager.Query.{query, recent_first, SessionQueryOpts, SessionMeta}
use gopheragent.Session.Manager.Query.Listed.{query_iff, Lists, whole}

abbrev ask : Message
ask = plain_message role_user (codes "q")

abbrev call_two : Message
call_two = record (plain_message role_assistant []) {
  tool_calls =
      record { id = codes "a"; name = codes "t"; arguments = [] }
      ∷ record { id = codes "b"; name = codes "t"; arguments = [] }
      ∷ [];
}

abbrev reply : Text → Message
reply id = record (plain_message role_tool (codes "r")) { tool_call_id = id }

-- One turn with two calls.
abbrev turn : List Message
turn = ask ∷ call_two ∷ reply (codes "a") ∷ reply (codes "b") ∷ ask ∷ []

-- A cut between the replies is moved before the turn.
cut_in_the_turn : snap_to_safe_boundary turn 3 ≡ 1
unfolding snap_to_safe_boundary snap_loop next_end assistant_before text_discrete
cut_in_the_turn = refl

cut_behind_the_turn : snap_to_safe_boundary turn 4 ≡ 4
unfolding snap_to_safe_boundary snap_loop next_end assistant_before text_discrete
cut_behind_the_turn = refl

-- A system message between a call and its replies: the cut behind it is taken for safe, and the
-- prefix has a call without a reply.
abbrev interrupted : List Message
interrupted =
    call_two ∷ plain_message role_system (codes "s") ∷ reply (codes "a") ∷ reply (codes "b") ∷ []

cut_behind_system : snap_to_safe_boundary interrupted 2 ≡ 2
unfolding snap_to_safe_boundary snap_loop next_end assistant_before text_discrete
cut_behind_system = refl

dangles_behind_system : has_dangling_tool_calls (take 2 interrupted) ≡ true
unfolding has_dangling_tool_calls responded block text_discrete
dangles_behind_system = refl

turn-Settled : Settled turn
unfolding text_discrete
turn-Settled zero quiet other = absurd (true≢false quiet)
turn-Settled (suc zero) quiet other = absurd (true≢false quiet)
turn-Settled (suc (suc zero)) quiet other = absurd (true≢false other)
turn-Settled (suc (suc (suc zero))) quiet other = absurd (true≢false other)
turn-Settled (suc (suc (suc (suc zero)))) quiet other = refl
turn-Settled (suc (suc (suc (suc (suc p))))) quiet other = refl

turn-Paired : Paired turn
unfolding has_dangling_tool_calls responded block text_discrete
turn-Paired = (has_dangling_iff turn).0 refl

snap_to_safe_boundary-Paired_example :
    (snap_to_safe_boundary turn 3 ≤ min 3 (length turn))
    × (Paired (take (snap_to_safe_boundary turn 3) turn)
        × Course turn (min 3 (length turn)) (snap_to_safe_boundary turn 3))
snap_to_safe_boundary-Paired_example = snap_to_safe_boundary-Paired turn 3 turn-Settled turn-Paired

abbrev key : Text
key = codes "k"

-- A manager with a TTL and one session, saved at time 5.
abbrev manager : InMemSessionManager
manager = record {
  sessions = (key, turn) ∷ [];
  async_tasks = [];
  behaviors = [];
  last_sum_len = [];
  updated_at = (key, 5) ∷ [];
  deleted_at = [];
  titles = [];
  system_prompt = codes "p";
  summarizes = false;
  prompt_version = [];
  ttl = 10;
  last_use = (key, 5) ∷ [];
}

manager_find : find key manager.sessions ≡ some turn
unfolding text_discrete
manager_find = refl

run-Changes_example :
    Changes key
      (effect 10 false (saving 7 (ask ∷ [])))
      manager
      (run (saving 7 (ask ∷ [])) key manager)
run-Changes_example = run-Changes (saving 7 (ask ∷ [])) key manager

history-save_example :
    ReadsAs
      (prompt_of key manager)
      (ask ∷ [])
      (history 9 key (save_history 7 key (ask ∷ []) manager).0).0
    × ((other : Text)
        → same key other ≡ false
        → (history 9 other (save_history 7 key (ask ∷ []) manager).0).0
          ≡ (history 9 other manager).0)
history-save_example = history-save 7 9 key (ask ∷ []) manager

fork-Paired_example :
    ((fork 8 (ok (codes "f")) key (some 3) manager).0 ≡ ok (codes "f"))
    × (((slot_of (fork 8 (ok (codes "f")) key (some 3) manager).1 (codes "f")).log
          ≡ some (take (snap_to_safe_boundary turn 3) turn))
        × (Paired (take (snap_to_safe_boundary turn 3) turn)
            × ((k : Text)
                → same (codes "f") k ≡ false
                → slot_of (fork 8 (ok (codes "f")) key (some 3) manager).1 k ≡ slot_of manager k)))
fork-Paired_example =
    fork-Paired 8 (codes "f") key turn 3 manager manager_find turn-Settled turn-Paired

evict_expired-Evicts_example :
    Evicts 20 10 (slot_of manager key) (slot_of (evict_expired 20 manager) key)
evict_expired-Evicts_example = evict_expired-Evicts 20 manager key

-- A session that was tombstoned, evicted and saved again under its key is born deleted.
reborn :
    (slot_of
      (save_history 30 key (ask ∷ []) (evict_expired 20 (soft_delete 6 key manager))).0
      key).deleted
    ≡ some 6
unfolding save_history evict_expired evict_each soft_delete text_discrete
reborn = refl

-- The second page of one session each.
abbrev second_page : SessionQueryOpts
second_page = record { limit = 1; offset = 1; order_by = recent_first; include_deleted = false }

query_iff_example :
    ((meta : SessionMeta)
      → In meta (whole (λ less metas. metas) [] second_page manager) ↔ Lists manager [] false meta)
    × ((i : ℕ)
        → get_elem? (query (λ less metas. metas) [] second_page manager) i ≡ (
            if (1 == 0) || ltb i 1
            then get_elem? (whole (λ less metas. metas) [] second_page manager) (1 + i)
            else none))
query_iff_example =
    query_iff (λ less metas. metas) [] second_page manager (λ less metas x. (λ h. h, λ h. h))

-- A store that holds one log and never fails.
abbrev log_store : Sessions (List Message)
log_store = record { load = λ k st. (ok st, st); save = λ k msgs st. (none, msgs) }

-- Regenerate drops the last question and keeps the finished turn before it.
keeps_the_turn : regenerate log_store key turn ≡ (
  ok (record { user_msg = ask; previous_assistant_index = some 1; truncated_at = 4 }),
  take 4 turn,
)
unfolding regenerate regenerate_loaded last_user_index last_assistant_index last_index
    snap_to_safe_boundary snap_loop next_end assistant_before text_discrete
keeps_the_turn = refl

regenerate-Regenerated_example :
    Regenerated log_store key turn turn (λ log. log) (regenerate log_store key turn)
regenerate-Regenerated_example =
    regenerate-Regenerated log_store key turn turn turn (λ log. log) refl (λ msgs quiet. refl)
      turn-Settled turn-Paired

abbrev open_turn : List Message
open_turn = ask ∷ call_two ∷ []

open_turn-CallsNamed : CallsNamed open_turn
open_turn-CallsNamed = ground arith

continue_logic_loop-Sealed_example :
    Sealed log_store key open_turn open_turn (continue_logic_loop log_store key open_turn)
continue_logic_loop-Sealed_example =
    continue_logic_loop-Sealed log_store key open_turn open_turn open_turn refl open_turn-CallsNamed

-- A call without a reply can be continued, a final answer cannot.
continues :
    (continue_session log_store key open_turn ≡ (ok 1, open_turn))
    × (continue_session log_store key (plain_message role_assistant [] ∷ [])
        ≡ (err nothing_to_continue, plain_message role_assistant [] ∷ []))
unfolding continue_session can_continue text_discrete
continues = (refl, refl)
