-- ===== src/Session.antt =====
-- The in-memory session store (pkg/history), and Regenerate and Continue of pkg/agent on any store.
pub mod Boundary
pub mod Manager
pub mod Regenerate
mod Tests
