-- ===== src/Db/Management.antt =====
-- db/management.rs: listing, cancelling, resuming, forking and collecting workflows.
pub mod List
pub mod Retire
pub mod Fork
pub mod Lifecycle
pub mod Settled
pub mod Copies
pub mod Newest
pub mod Collected
pub mod Cancelled
