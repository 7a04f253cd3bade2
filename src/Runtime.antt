-- ===== src/Runtime.antt =====
-- agent_peer/runtime.py: the supervisor of the peers of a process.
pub mod Replies
pub mod Service
pub mod Answers
pub mod Examples
pub mod Receipts
pub mod Sending
pub mod Supervision
