-- ===== src/Execution.antt =====
-- The execution of the tool calls of one turn: pkg/agent/loop_state.go, loop_execute.go,
-- hitl_gate.go, plan_mode_gate.go, recordToolTurn of loop_iteration.go and resume.go.
pub mod State
pub mod Host
pub mod Call
pub mod Dispatch
pub mod Effects
pub mod Consent
pub mod Turn
pub mod Waves
pub mod Approvals
pub mod Replies
pub mod Transcript
pub mod Balance
pub mod Resume
pub mod Parked
pub mod Reread
pub mod Seeded
mod Tests
