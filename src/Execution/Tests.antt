-- ===== src/Execution/Tests.antt =====
-- A turn of three calls: one tool runs freely, one asks the human, and the third call is dropped.
use gopheragent.Base.{
  ◌++◌, err, ◌≡◌, ◌⊎◌, refl, true, false, List, [], ◌∷◌, none, some, ok, codes, same, if◌then◌else◌,
  text_discrete,
}
use gopheragent.History.{Message, plain_message, role_user}
use gopheragent.Permission.Rules.{RuleSet, check, matches}
use gopheragent.AntiLoop.{new_loop_detector, detect, add_call, hash_str}
use gopheragent.Scheduler.{PendingToolCall}
use gopheragent.Request.Dangling.Paired.{Paired}
use gopheragent.Execution.State.{
  error_reply, unfinished, append_tool_results_in_order, WaveState, new_wave_state, record_tool_msg,
  append_assistant_tool_call_msg,
}
use gopheragent.Execution.Host.{ToolDescriptor, Host, World}
use gopheragent.Execution.Turn.{apply_tool_call_budget, run_calls, goes_on, record_tool_turn}
use gopheragent.Execution.Dispatch.{execute_tool_call}
use gopheragent.Execution.Effects.{Effect, execute-Effect}
use gopheragent.Execution.Consent.{Fresh, Cleared, execute-Cleared, denied_never_runs}
use gopheragent.Execution.Resume.{
  needs_approval, pending_tool_turn, unanswered_calls, seeded_wave_state,
}
use gopheragent.Execution.Seeded.{unfinished-seeded}
use gopheragent.Execution.Reread.{pending_tool_turn-record}
use gopheragent.Execution.Replies.{Held, Calm, Filed, put-Filed}
use gopheragent.Execution.Parked.{execute-parks}
use gopheragent.Scheduler.{
  next_round, index_calls, build_nodes, add_deps, layers, schedule_tool_calls,
}
use gopheragent.Scheduler.Refs.{parse_refs}
use gopheragent.Execution.Waves.{
  WaveHost, execute_tool_waves, execute_waves, execute_wave, substitute_wave_args,
  split_gated_duplicates, split_gated, copy_duplicate_results,
}
use gopheragent.Session.Regenerate.{Sessions}
use gopheragent.Execution.Resume.{last_other}
use gopheragent.Execution.Call.{permission_of}
use gopheragent.Execution.Approvals.{
  approvals_in, pending_calls, pending_approvals, unknown_decision, unknown_approval, resume,
  resume_loaded,
}
use gopheragent.Execution.Approvals.Listed.{Awaits}
use gopheragent.Execution.Approvals.Checked.{Checked, resume-Checked}
use gopheragent.Execution.Waves.Progress.{execute_tool_waves-Held}
use gopheragent.Execution.Waves.Recorded.{waves-Paired}

abbrev reader : ToolDescriptor
reader = record { requires_confirmation = false; cacheable = false; inline_output = false }

abbrev eraser : ToolDescriptor
eraser = record { requires_confirmation = true; cacheable = false; inline_output = false }

abbrev rules : RuleSet
rules = record {
  allows = [];
  denies = record { tool_name = codes "format"; arg_glob = [] } ∷ [];
  confirms = [];
}

abbrev host : Host
host = record {
  lookup = λ name.
      if same name (codes "read")
      then some reader
      else if same name (codes "erase")
      then some eraser
      else none;
  permissions = some (check rules);
  decisions = λ id. none;
  defer_approvals = false;
  has_timeout = false;
  confirm_hitl =
      some (λ name args. record { approved = true; window_closed = false; run_cancelled = false });
  confirm_plan = none;
  cache_get = none;
  canonical = λ args. args;
  speculated = λ id. none;
  execute =
      λ tc. record { text = codes "done "; structured = none; degraded = none; exec_err = none };
  on_tool_result = none;
  format_tool_error = λ tc e. e;
  new_call_id = λ tc. tc.id;
  wording = λ why tc. codes "refused";
  plan_approved_text = codes "approved";
  warning = λ v. codes "loop";
}

abbrev world : World
world = record {
  ws = new_wave_state;
  plan_mode = false;
  tracker = new_loop_detector;
  cached = [];
  degradations = [];
  events = [];
  ran = [];
}

abbrev read : PendingToolCall
read = record { id = codes "a"; name = codes "read"; args_json = codes "{}" }

abbrev erase : PendingToolCall
erase = record { id = codes "b"; name = codes "erase"; args_json = codes "{}" }

abbrev format : PendingToolCall
format = record { id = codes "c"; name = codes "format"; args_json = codes "{}" }

abbrev calls : List PendingToolCall
calls = read ∷ erase ∷ format ∷ []

abbrev transcript : List Message
transcript = plain_message role_user (codes "go") ∷ []

both_run : (run_calls host (erase ∷ read ∷ []) world).ran ≡ read ∷ erase ∷ []
unfolding run_calls execute_tool_call detect add_call check matches new_loop_detector hash_str
    record_tool_msg text_discrete
both_run = refl

turn_goes_on :
    (record_tool_turn
      (codes "aborted")
      (codes "dropped")
      (append_assistant_tool_call_msg transcript [] calls)
      calls
      (apply_tool_call_budget 2 calls).1
      (run_calls host (erase ∷ read ∷ []) world).ws).1
    ≡ goes_on
unfolding record_tool_turn run_calls execute_tool_call detect add_call check matches
    new_loop_detector hash_str record_tool_msg text_discrete
turn_goes_on = refl

-- The same turn in waves, with references left as they are.
abbrev waves_host : WaveHost
waves_host = record {
  host = host;
  substitute = λ args results. ok args;
  failed_text = λ tc e. e;
  arrange = λ calls. calls;
}

execute_tool_waves-Calm : Calm (execute_tool_waves waves_host (read ∷ erase ∷ []) world).ws
unfolding execute_tool_waves execute_waves execute_wave substitute_wave_args split_gated_duplicates
    split_gated copy_duplicate_results unfinished schedule_tool_calls next_round index_calls
    build_nodes add_deps layers parse_refs run_calls execute_tool_call detect add_call check matches
    new_loop_detector hash_str record_tool_msg text_discrete
execute_tool_waves-Calm = (refl, refl)

waves_go_on :
    (record_tool_turn
      (codes "aborted")
      (codes "dropped")
      (append_assistant_tool_call_msg transcript [] calls)
      calls
      (apply_tool_call_budget 2 calls).1
      (execute_tool_waves waves_host (apply_tool_call_budget 2 calls).0 world).ws).1
    ≡ goes_on
unfolding apply_tool_call_budget record_tool_turn execute_tool_waves execute_waves execute_wave
    substitute_wave_args split_gated_duplicates split_gated copy_duplicate_results unfinished
    schedule_tool_calls next_round index_calls build_nodes add_deps layers parse_refs run_calls
    execute_tool_call detect add_call check matches new_loop_detector hash_str record_tool_msg
    text_discrete
waves_go_on = refl

waves-Paired_example :
    Paired
      (record_tool_turn
        (codes "aborted")
        (codes "dropped")
        (append_assistant_tool_call_msg transcript [] calls)
        calls
        (apply_tool_call_budget 2 calls).1
        (execute_tool_waves waves_host (apply_tool_call_budget 2 calls).0 world).ws).0
waves-Paired_example =
    waves-Paired waves_host 2 (codes "aborted") (codes "dropped") transcript [] calls world
      (λ calls id h. h) ((λ e. tt), tt) ((λ e. cc), ((λ e. cc), ((λ e. cc), tt))) refl
      (let ends = waves_go_on in λ n e. cc)

execute_tool_waves-Held_example :
    Held (execute_tool_waves waves_host (read ∷ erase ∷ []) world).ws.tool_msgs (codes "b")
unfolding text_discrete
execute_tool_waves-Held_example =
    execute_tool_waves-Held waves_host (read ∷ erase ∷ []) world (λ calls id h. h)
      execute_tool_waves-Calm (codes "b") refl

execute-Effect_example : Effect erase world.ws (execute_tool_call host erase world).ws
execute-Effect_example = execute-Effect host erase world refl

denied_never_runs_example : (execute_tool_call host format world).ran ≡ world.ran
unfolding matches text_discrete
denied_never_runs_example = denied_never_runs host rules format world refl refl

execute-Cleared_example :
    ((execute_tool_call host erase world).ran ≡ [])
    ⊎ (((execute_tool_call host erase world).ran ≡ erase ∷ [])
        × ((world.ws.fatal_err ≡ none)
            × ((world.plan_mode ≡ false)
                × ((desc : ToolDescriptor) × ((host.lookup erase.name ≡ some desc)
                      × (Fresh host desc erase world × Cleared host desc erase))))))
execute-Cleared_example = execute-Cleared host erase world

abbrev deferring : Host
deferring = record host { defer_approvals = true }

execute-parks_example :
    (execute_tool_call deferring erase world).ws.pending
    ≡ (if needs_approval deferring erase then erase ∷ [] else [])
execute-parks_example = execute-parks deferring erase world refl refl refl refl

-- One of two calls has its reply.
abbrev half : WaveState
half = record new_wave_state { tool_msgs = (read.id, error_reply read (codes "no")) ∷ [] }

half-Filed : Filed half.tool_msgs
half-Filed = put-Filed read.id (error_reply read (codes "no")) [] refl refl (λ id m e. absurd cc)

pending_tool_turn-record_example :
    pending_tool_turn (
      append_tool_results_in_order
        (append_assistant_tool_call_msg transcript [] (read ∷ erase ∷ []))
        (read ∷ erase ∷ [])
        half.tool_msgs)
    ≡ some (1, erase ∷ [])
unfolding unfinished text_discrete
pending_tool_turn-record_example =
    pending_tool_turn-record transcript [] (read ∷ erase ∷ []) half half-Filed

unfinished-seeded_example :
    unanswered_calls (error_reply read (codes "no") ∷ []) (read ∷ erase ∷ [])
    ≡ unfinished
        (seeded_wave_state (error_reply read (codes "no") ∷ []) new_wave_state)
        (read ∷ erase ∷ [])
unfinished-seeded_example =
    unfinished-seeded (error_reply read (codes "no") ∷ []) (read ∷ erase ∷ [])

-- A stored turn in which the reader was answered and the eraser waits.
abbrev waiting : List Message
waiting =
    append_assistant_tool_call_msg transcript [] (read ∷ erase ∷ [])
    ++ record (error_reply read (codes "no")) { tool_call_id = codes "a" } ∷ []

abbrev log_store : Sessions (List Message)
log_store = record { load = λ k st. (ok st, st); save = λ k msgs st. (none, msgs) }

-- The waiting call can be answered, the answered one cannot.
answers_the_waiting_call :
    (resume log_store deferring (codes "k") (codes "b" ∷ []) waiting ≡ (ok 1, waiting))
    × (resume log_store deferring (codes "k") (codes "b" ∷ codes "a" ∷ []) waiting
        ≡ (err (unknown_approval (codes "a")), waiting))
unfolding resume resume_loaded approvals_in needs_approval split_gated_duplicates split_gated
    pending_tool_turn last_other unknown_decision append_assistant_tool_call_msg matches check
    permission_of text_discrete
answers_the_waiting_call = (refl, refl)

resume-Checked_example :
    (listed : List PendingToolCall) × ((pending_approvals log_store deferring (codes "k") waiting
        ≡ (ok listed, waiting))
      × (Awaits deferring (pending_calls (pending_tool_turn waiting)) listed
          × (Checked listed
                (pending_tool_turn waiting)
                (codes "b" ∷ [])
                (resume log_store deferring (codes "k") (codes "b" ∷ []) waiting).0
              × ((resume log_store deferring (codes "k") (codes "b" ∷ []) waiting).1 ≡ waiting))))
resume-Checked_example =
    resume-Checked log_store deferring (codes "k") (codes "b" ∷ []) waiting waiting waiting refl
