-- ===== src/Runner.antt =====
-- src/runner: the durable loop that submits queued intents at most once.
pub mod Types
pub mod Failures
pub mod Stops
pub mod Store
pub mod Schedule
pub mod Reconcile
pub mod Request
pub mod State
pub mod Submit
pub mod Outcome
pub mod Pass
pub mod Moves
mod Examples
