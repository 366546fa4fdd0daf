-- ===== src/Coordination.antt =====
-- src/instruct_eval/coordination.py: the durable ledger of invocations, gates, decisions and child
-- authorizations.
pub mod Library
pub mod Types
pub mod Checks
pub mod Invocations
pub mod Gates
pub mod Decisions
pub mod Children
pub mod Calls
pub mod Opening
mod Tests
