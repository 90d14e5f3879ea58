-- ===== src/Runtime/Queue/Options.antt =====
-- runtime/queue.rs: the options of a queue. The period of a rate limit is in
-- milliseconds, as the dequeue reads it, and the polling intervals are in nanoseconds.
use dbos_transact_rs.Prelude.{ℕ, String, Bool, true, false, Option, none, some}

pub record RateLimiter : Type 0 where
  pub limit : ℕ
  pub period : ℕ

pub record WorkflowQueue : Type 0 where
  pub name : String
  pub worker_concurrency : Option ℕ
  pub global_concurrency : Option ℕ
  pub priority_enabled : Bool
  pub rate_limit : Option RateLimiter
  pub max_tasks_per_iteration : ℕ
  pub partition_queue : Bool
  pub base_polling : ℕ
  pub max_polling : ℕ

abbrev pub default_max_tasks : ℕ
default_max_tasks = 100

abbrev pub default_base_polling : ℕ
default_base_polling = 1_000_000_000

abbrev pub default_max_polling : ℕ
default_max_polling = 120_000_000_000

unfoldable pub new : String → WorkflowQueue
new name = record {
  name = name;
  worker_concurrency = none;
  global_concurrency = none;
  priority_enabled = false;
  rate_limit = none;
  max_tasks_per_iteration = default_max_tasks;
  partition_queue = false;
  base_polling = default_base_polling;
  max_polling = default_max_polling;
}

unfoldable pub with_worker_concurrency : ℕ → WorkflowQueue → WorkflowQueue
with_worker_concurrency n q = record q { worker_concurrency = some n }

unfoldable pub with_global_concurrency : ℕ → WorkflowQueue → WorkflowQueue
with_global_concurrency n q = record q { global_concurrency = some n }

unfoldable pub with_priority : WorkflowQueue → WorkflowQueue
with_priority q = record q { priority_enabled = true }

unfoldable pub with_rate_limit : ℕ → ℕ → WorkflowQueue → WorkflowQueue
with_rate_limit limit period q = record q {
  rate_limit = some (record { limit = limit; period = period });
}

unfoldable pub partitioned : WorkflowQueue → WorkflowQueue
partitioned q = record q { partition_queue = true }

unfoldable pub with_max_tasks : ℕ → WorkflowQueue → WorkflowQueue
with_max_tasks n q = record q { max_tasks_per_iteration = n }

unfoldable pub with_base_polling : ℕ → WorkflowQueue → WorkflowQueue
with_base_polling d q = record q { base_polling = d }

unfoldable pub with_max_polling : ℕ → WorkflowQueue → WorkflowQueue
with_max_polling d q = record q { max_polling = d }
