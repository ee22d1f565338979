-- ===== src/Execution/Approvals.antt =====
-- pkg/agent/resume.go: PendingApprovals, and the checks of Resume before the loop runs again. The
-- decisions are the IDs that they name, in the order in which Go visits the map.
use gopheragent.Base.{
  ℕ, Bool, true, false, List, [], ◌∷◌, filter_by, any, Option, none, some, if◌then◌else◌, Text,
  same, Result, ok, err,
}
use gopheragent.History.{Message}
use gopheragent.Scheduler.{PendingToolCall}
use gopheragent.Session.Regenerate.{Sessions}
use gopheragent.Execution.Host.{Host}
use gopheragent.Execution.Resume.{needs_approval, pending_tool_turn}
use gopheragent.Execution.Waves.{split_gated_duplicates}
pub mod Checked
pub mod Listed

unfoldable pub approvals_in : Host → List PendingToolCall → List PendingToolCall
unfolding needs_approval split_gated_duplicates
approvals_in h pending = filter_by (needs_approval h) (split_gated_duplicates h pending).0

abbrev pub pending_calls : Option (ℕ × List PendingToolCall) → List PendingToolCall
pending_calls turn = elim turn [ none ↦ [] | some t ↦ t.1 ]

-- PendingApprovals, behind its call of History.
unfoldable pub approvals_loaded :
    {S : Type 0} → Host → Result Text (List Message) × S → Result Text (List PendingToolCall) × S
unfolding approvals_in pending_tool_turn
approvals_loaded h (err e, st) = (err e, st)
approvals_loaded h (ok existing, st) =
    (ok (approvals_in h (pending_calls (pending_tool_turn existing))), st)

unfoldable pub pending_approvals :
    {S : Type 0} → Sessions S → Host → Text → S → Result Text (List PendingToolCall) × S
unfolding approvals_loaded
pending_approvals s h key st = approvals_loaded h (s.load key st)

abbrev pub contains_call_id : List PendingToolCall → Text → Bool
contains_call_id calls id = any (λ tc. same tc.id id) calls

-- The decision that the loop refuses.
unfoldable pub unknown_decision : List PendingToolCall → List Text → Option Text
unknown_decision open_calls [] = none
unknown_decision open_calls (id ∷ ids) =
    let rest = unknown_decision open_calls ids in
    if contains_call_id open_calls id then rest else some id

pub data ResumeError : Type 0 where
  resume_load_failed : Text → ResumeError
  nothing_to_resume : ResumeError
  unknown_approval : Text → ResumeError

-- Resume, behind its call of History, up to the index of its first event.
unfoldable pub resume_loaded :
    {S : Type 0} → Host → List Text → Result Text (List Message) × S → Result ResumeError ℕ × S
unfolding approvals_in pending_tool_turn unknown_decision
resume_loaded h decisions (err e, st) = (err (resume_load_failed e), st)
resume_loaded h decisions (ok existing, st) = elim (pending_tool_turn existing) [
  | none ↦ (err nothing_to_resume, st)
  | some turn ↦ elim (unknown_decision (approvals_in h turn.1) decisions) [
    | some id ↦ (err (unknown_approval id), st)
    | none ↦ (ok turn.0, st)
  ]
]

unfoldable pub resume :
    {S : Type 0} → Sessions S → Host → Text → List Text → S → Result ResumeError ℕ × S
unfolding resume_loaded
resume s h key decisions st = resume_loaded h decisions (s.load key st)
