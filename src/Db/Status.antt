-- ===== src/Db/Status.antt =====
-- db/status.rs: the operations on `workflow_status`.
pub mod Insert
pub mod Outcome
pub mod Await
pub mod Pending
