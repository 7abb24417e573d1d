-- ===== src/Transaction.antt =====
-- src/transaction.rs: the coordinator that applies a candidate configuration and commits it.
pub mod Types
pub mod Recovery
pub mod Keeping
pub mod Execute
pub mod Stages
pub mod Outcomes
pub mod Success
pub mod Confirmed
pub mod Startup
pub mod Reapply
mod Examples
