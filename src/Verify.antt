-- ===== src/Verify.antt =====
-- src/chain/verify.ts and src/chain/deployment.ts: what a decoded transaction is held to before it
-- is signed.
pub mod Text
pub mod Transaction
pub mod Deployment
pub mod Encoding
pub mod Bindings
pub mod Rules
pub mod Authorized
pub mod Equal
pub mod Refusal
pub mod Host
pub mod Arguments
pub mod Code
pub mod Shape
pub mod Grants
pub mod Reach
pub mod Orders
pub mod Match
pub mod Document
pub mod Manifest
mod Samples
mod Examples
