-- ===== src/Policy.antt =====
-- src/policy.ts: what the process may sign, and on whose say-so.
pub mod Intent
pub mod Scope
pub mod Gate
pub mod Permits
pub mod Calls
pub mod Modes
pub mod Examples
