-- ===== src/Lib.antt =====
-- DBOS Transact for Rust: durable workflows over a Postgres system database.
--
-- A workflow is a row of `workflow_status`; its steps are rows of `operation_outputs`, one for each
-- (workflow id, step id). An executor runs a workflow's body from its first step on; a step that is
-- recorded is replayed, and so a crash between steps is invisible. Queues hold ENQUEUED rows that the
-- executors claim in transactions which keep rate and concurrency limits.
--
-- Files, and the code that each is about (src/ and migrations/ are those of
-- crates/dbos):
--   Prelude/     shared names: Boolean tests, lists, tables as lists of rows (select, update, delete,
--                insert, find, count), texts, stable sorting by a Boolean order.
--   Error/       src/error.rs: codes, SQLSTATE tests, `DbosError` with its constructors and Display.
--   Exec         `Result` and fallible code over an explicit state, with transactions that roll back.
--   Db/          the tables (migrations/) and the statements on them: Db/Status for src/db/status.rs,
--                Db/Queue for src/db/queue.rs, Db/Steps for src/db/steps.rs, Db/Notifications for
--                src/db/notifications.rs, Db/Streams for src/db/streams.rs, and Db/Management for
--                src/db/management.rs: List (`list_workflows`, `get_workflow_steps`), Retire (cancel,
--                resume, delete, `garbage_collect`) and Fork (`fork_workflow`), with what they
--                guarantee in Lifecycle, Settled, Cancelled, Collected (over Newest, on cutoffs by the
--                number of rows) and Copies. What a dequeue guarantees is in Bounds, RateLimit,
--                Priority and Claims of Db/Queue/Dequeue.
--   Db/Migrate   src/db/migrate.rs and the quoting of src/db/mod.rs: Ident, Render, Build (the list of
--                migrations) and Run (`should_migrate`, `run_migrations`), with what they guarantee in
--                Quoting, Rendering, Versions, Progress, Loop and Laws.
--   Serialize/   src/serialize.rs: Value (serde_json's), Numbers (`str::parse`), Serde (what is called
--                of serde_json and base64), Superjson, Formats, Input and Errors; Codec is the record
--                of coders that the steps take and Coder fills it. RoundTrip, InputRoundTrip,
--                ErrorRoundTrip and BestEffort are about all of these.
--   Runtime/     of src/runtime/context.rs and src/runtime/step.rs: Session (`WorkflowState`), Context
--                (`run_step`, `run_step_with`), Step (the retry loop), Program (workflow bodies over
--                `run_step`), Durable (`send`, `set_event`, `write_stream`, `close_stream`), Wait
--                (`sleep`, `recv`, `get_event`), Workflow (src/runtime/workflow.rs: `start_workflow`
--                up to the spawn of the body, `enqueue_workflow`, and `run_workflow` of
--                context.rs), Recover (src/runtime/recovery.rs) and Queue (src/runtime/queue.rs:
--                Options, and Runner with the poll cycle and the dispatch; Workers, Concurrency and
--                Polling say what holds over its runs), Scheduler (src/runtime/scheduler.rs; Ticks is
--                about its ticks) and Admin (the handlers of src/runtime/admin.rs; Wire has the JSON
--                that they send, Found is about the answer for one workflow).
--   Client       src/client.rs: what an external application calls; Claimed joins its `enqueue` with
--                the dequeue of an executor.
--   Config       src/config.rs: `detect_dialect`, `process_config_with_env`; Resolved is what a
--                configuration that was accepted has.
--   Tests/       concrete databases, runs and instances.
--
-- How the code is read. A table is a list of rows in the order of insertion, and an SQL statement is
-- a function on it. The primary and foreign keys that the code relies on are tests before an insert,
-- with the SQLSTATE that Postgres reports; other failures of the connection are not modelled. A
-- transaction is one step on the database; `transaction` puts the old state back on an error. The
-- clock is an argument. Times, attempts and priorities are not negative, and step ids and stream
-- offsets, which the code keeps in 32 bits, are taken as unbounded. Rows of one creation time stand in
-- the order of insertion where the code orders by that time; Postgres leaves their order open. The
-- connection may fail while a queue's partitions are read. The task of a queued workflow ends with the
-- result of its handler; a handler that panics, and so leaves its worker count as it is, is not
-- modelled. The status column is typed by
-- the enumeration, as the code only writes the texts of `as_str`, which read back.
-- Rows that other transactions hold locked are a predicate of `dequeue_workflows`: SKIP LOCKED passes
-- over them and NOWAIT fails on them. The polls of `await_workflow_result` are a list of the databases
-- that they see, and the loop ends with that list; so do those of `read_stream_blocking`, and `recv`
-- and `get_event` wait through a list of the changes that other processes make. Retry loops are
-- structural recursion on `max_retries`; their waits are left out. A step body acts on an abstract
-- world. Between two steps a program sees the values of the steps, and the text of an error: a
-- replayed error keeps its text and loses its code.
--
-- The migrations act on an abstract world: what Postgres makes of an SQL text is a parameter, and the
-- tracking table is a list of versions. serde_json and base64 are records of functions with the laws of
-- their documentation: a text of a value without floats and at most 127 levels deep gives the value
-- back, with the fields of its maps in the order of the keys. The intervals of the queue runner are
-- scaled by parameters, as the code scales them in floating point.
--
-- A scheduler's ticks come from a parameter for the cron crate, and a request's body is read by a
-- parameter for serde's derived readers.
--
-- Not modelled: `mask_password` (regular expressions) and the hash of the executable in src/config.rs;
-- of src/runtime/ the builder in mod.rs, the listener and the conductor's client, and the filter that
-- admin.rs reads for its list of workflows; the HTTP server, telemetry and the timers, which keep no
-- state that these operations read.
mod Prelude
pub mod Error
pub mod Exec
pub mod Db
pub mod Serialize
pub mod Runtime
pub mod Client
pub mod Config
mod Tests
