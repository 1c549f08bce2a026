-- ===== src/Agent.antt =====
-- src/agent: the ledgers that the commands and the runner share.
pub mod Spend
pub mod Journal
pub mod Approvals
pub mod Execute
pub mod Submissions
mod Examples
