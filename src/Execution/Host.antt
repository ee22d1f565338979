-- ===== src/Execution/Host.antt =====
-- What a loop is configured with (the fields of AgentLoop in pkg/agent/loop_stream.go that a tool
-- call reads) and what it changes. Callbacks of the host are functions; the texts of refusals and
-- warnings, the correlation IDs and the JSON canonicalisation are functions as well.
use gopheragent.Base.{Bool, List, [], ◌∷◌, ◌++◌, Option, Text, codes, Result}
use gopheragent.Permission.Rules.{Decision}
use gopheragent.AntiLoop.{Verdict, LoopDetector}
use gopheragent.Scheduler.{PendingToolCall}
use gopheragent.Execution.State.{WaveState}

-- pkg/tools/tool.go
pub record ToolDescriptor : Type 0 where
  pub requires_confirmation : Bool
  pub cacheable : Bool
  pub inline_output : Bool

pub record Degradation : Type 0 where
  pub reason : Text
  pub artifacts : List Text
  pub unreliable : List Text

-- The result and the error that a tool returns together.
pub record ToolOutcome : Type 0 where
  pub text : Text
  pub structured : Option Text
  pub degraded : Option Degradation
  pub exec_err : Option Text

-- What happens while ConfirmHITL runs: its answer, and whether the approval window or the run ended.
pub record Answer : Type 0 where
  pub approved : Bool
  pub window_closed : Bool
  pub run_cancelled : Bool

pub data HitlOutcome : Type 0 where
  hitl_approved hitl_denied hitl_timed_out hitl_unconfigured hitl_deferred : HitlOutcome

-- Why a call gets an error reply without running.
pub data Refusal : Type 0 where
  not_found policy_denied plan_blocked plan_denied user_denied timed_out unconfigured : Refusal

pub data Thought : Type 0 where
  auto_approved denied_by_policy human_approved needs_confirmation plan_proposed : Thought
  plan_accepted cache_hit reusing_speculative loop_warning : Thought
  scheduler_fallback substitution_failed : Thought

pub data Event : Type 0 where
  thought : Thought → Event
  error_event : Refusal → Event
  action_required : PendingToolCall → Event
  hitl_denied_event : PendingToolCall → Event
  hitl_timed_out_event : PendingToolCall → Event
  tool_call_event : Text → PendingToolCall → Bool → Event
  content_event : Text → Event

pub record Host : Type 0 where
  pub lookup : Text → Option ToolDescriptor
  pub permissions : Option (Text → Text → Decision)
  -- Answers handed to Resume.
  pub decisions : Text → Option Bool
  pub defer_approvals : Bool
  pub has_timeout : Bool
  pub confirm_hitl : Option (Text → Text → Answer)
  pub confirm_plan : Option (Text → Bool)
  -- What the cache answers after a sequence of writes.
  pub cache_get : Option (List (Text × Text) → Text → Option Text)
  pub canonical : Text → Text
  pub speculated : Text → Option ToolOutcome
  pub execute : PendingToolCall → ToolOutcome
  -- The rewritten text, or an error.
  pub on_tool_result : Option (Text → PendingToolCall → ToolOutcome → Result Text Text)
  pub format_tool_error : PendingToolCall → Text → Text
  pub new_call_id : PendingToolCall → Text
  pub wording : Refusal → PendingToolCall → Text
  pub plan_approved_text : Text
  pub warning : Verdict → Text

-- The state that a tool call works on. `ran` are the calls given to `tool.Execute`, `cached` the
-- writes to the cache, `degradations` the accumulator of the run; each with the newest first.
pub record World : Type 0 where
  pub ws : WaveState
  pub plan_mode : Bool
  pub tracker : LoopDetector
  pub cached : List (Text × Text)
  pub degradations : List (Text × Degradation)
  pub events : List Event
  pub ran : List PendingToolCall

abbrev pub emit : Event → World → World
emit e w = record w { events = e ∷ w.events }

-- The em dash in UTF-8.
em_dash : Text
em_dash = 0xe2 ∷ 0x80 ∷ 0x94 ∷ []

-- strings.Join
joined : Text → List Text → Text
joined sep [] = []
joined sep (s ∷ []) = s
joined sep (s ∷ t ∷ ts) = s ++ (sep ++ joined sep (t ∷ ts))

listing : Text → List Text → Text
listing title [] = []
listing title (s ∷ ss) = title ++ joined (codes ", ") (s ∷ ss)

stated : Text → Text
stated [] = codes "the tool reported that part of its work did not complete"
stated (c ∷ s) = c ∷ s

unfoldable pub degradation_note : Degradation → Text
unfolding em_dash joined listing stated
degradation_note d =
    codes "\n\n[System: partial success] "
    ++ stated d.reason
    ++ listing (codes "\nLanded and must NOT be retried or discarded: ") d.artifacts
    ++ listing
        (codes "\nNow unreliable "
          ++ em_dash
          ++ codes " treat as suspect and repair before relying on it: ")
        d.unreliable
