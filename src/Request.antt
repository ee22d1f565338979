-- ===== src/Request.antt =====
-- The path from stored history to the messages of one LLM call (pkg/agent).
pub mod Dangling
pub mod Window
pub mod View
pub mod Prune
pub mod Derive
pub mod Invariant
mod Tests
