-- ===== src/Runtime/Queue.antt =====
-- runtime/queue.rs: the queues' options, and the runner that polls a queue and dispatches what it
-- claims.
pub mod Options
pub mod Runner
pub mod Workers
pub mod Polling
pub mod Concurrency
