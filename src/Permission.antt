-- ===== src/Permission.antt =====
-- pkg/agent/permissions.go: permission rules, their parser, the glob matcher and `Check`.
pub mod Glob
pub mod Rules
mod Tests
