-- ===== src/Runtime.antt =====
-- runtime/: the execution of workflows and their steps.
pub mod Admin
pub mod Session
pub mod Step
pub mod Context
pub mod Program
pub mod Durable
pub mod Wait
pub mod Workflow
pub mod Recover
pub mod Queue
pub mod Scheduler
