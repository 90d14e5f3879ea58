-- ===== src/Tests/Runner.antt =====
-- An executor's queue runner on the rows of a queue.
use dbos_transact_rs.Prelude.{
  ℕ, ◌*◌, ◌/◌, ◌^◌, ◌≤◌, ◌<◌, String, ◌≡◌, refl, arith, Bool, true, false, Option, none, some, [],
  ◌∷◌, count, map, find, update, select,
}
use dbos_transact_rs.Prelude.Int.{pos}
use dbos_transact_rs.Prelude.Sort.{sort_by}
use dbos_transact_rs.Error.DbosError.{other}
use dbos_transact_rs.Db.Row.{WorkflowRow}
use dbos_transact_rs.Db.Tables.{Db}
use dbos_transact_rs.Db.Queue.Dequeue.{
  dequeue_workflows, is_running, num_recent, max_tasks, reaches_limit, claim_selected,
  select_candidates, claim_all, claim_one, claim, is_candidate, before, partition_clause, is_recent,
}
use dbos_transact_rs.Runtime.Workflow.{Executor, RegistryEntry}
use dbos_transact_rs.Runtime.Queue.Options.{WorkflowQueue}
use dbos_transact_rs.Runtime.Queue.Runner.{
  Runner, poll_partition, run_cycle, poll_cycle, partitions_of, worker_count, dispatch_all,
  dispatch_dequeued, inc_worker,
}
use dbos_transact_rs.Runtime.Queue.Workers.{of_key}
use dbos_transact_rs.Runtime.Queue.Concurrency.{
  Run, start, andthen, poll, idle, IsConfig, worker_concurrency_respected,
}
use dbos_transact_rs.Runtime.Queue.Polling.{
  IsScaling, IsInterval, run_cycle-IsInterval, after_quiet, after_quiet-base,
}
use dbos_transact_rs.Tests.Fixtures.{queued_row, db_of}

abbrev entry : RegistryEntry
entry = record { max_retries = pos 100; class_name = none; config_name = none }

abbrev registry : String → Option RegistryEntry
registry name = some entry

abbrev executor : Executor
executor = record {
  executor_id = "local";
  application_version = "v1";
  application_id = none;
  registry = registry;
}

abbrev config : String → WorkflowQueue
config name = record {
  name = name;
  worker_concurrency = some 1;
  global_concurrency = none;
  priority_enabled = false;
  rate_limit = none;
  max_tasks_per_iteration = 100;
  partition_queue = false;
  base_polling = 1_000_000_000;
  max_polling = 120_000_000_000;
}

small : (q : String) (wc : ℕ) → some 1 ≡ some wc → wc < 2 ^ 32
small q wc h = ground (arith, h)

config-IsConfig : IsConfig (λ t f. t) executor config
config-IsConfig = record { named = λ q. refl; small = small }

abbrev waiting : Db
waiting = db_of (queued_row "a" 2 ∷ queued_row "b" 1 ∷ [])

abbrev unlocked : WorkflowRow → Bool
unlocked r = false

abbrev once : Runner
once = (poll_partition executor (config "payments") 5000 unlocked none (idle waiting)).1

abbrev twice_polled : Runner
twice_polled = (poll_partition executor (config "payments") 5001 unlocked none once).1

polled : Run (λ t f. t) executor config (idle waiting) twice_polled
polled =
    andthen (andthen start (poll "payments" none 5000 unlocked))
      (poll "payments" none 5001 unlocked)

worker_concurrency_respected_example :
    (count (of_key "payments" "") twice_polled.tasks ≤ 1)
    × (worker_count twice_polled.worker_counts "payments" none
        ≡ count (of_key "payments" "") twice_polled.tasks)
worker_concurrency_respected_example =
    worker_concurrency_respected (λ t f. t) executor config config-IsConfig waiting twice_polled
      polled "payments" none 1 refl

abbrev doubled : ℕ → ℕ
doubled d = 2 * d

abbrev shrunk : ℕ → ℕ
shrunk d = d * 9 / 10

scaling : IsScaling doubled shrunk
scaling = record {
  doubles = λ d. omega arith;
  shrinks = λ d. omega arith;
  strictly = λ d h. omega (arith, h);
}

-- The payments by customer, when the connection is lost while the partitions are read.
abbrev by_customer : WorkflowQueue
by_customer = record (config "payments") { partition_queue = true }

run_cycle-IsInterval_example :
    IsInterval by_customer
      (run_cycle executor by_customer 5000 unlocked doubled shrunk
        (some (other "connection closed"))
        100_000_000_000
        (idle waiting)).0
run_cycle-IsInterval_example =
    run_cycle-IsInterval executor by_customer doubled shrunk scaling 5000 unlocked
      (some (other "connection closed")) 100_000_000_000 (idle waiting) (omega arith, omega arith)

-- Two hundred seconds are over the maximum.
doubles_to_max :
    (run_cycle executor by_customer 5000 unlocked doubled shrunk
      (some (other "connection closed"))
      100_000_000_000
      (idle waiting)).0
    ≡ 120_000_000_000
unfolding run_cycle poll_cycle partitions_of
doubles_to_max = ground arith

after_quiet-base_example :
    after_quiet (config "payments") doubled shrunk 5 1_000_000_003 ≡ 1_000_000_000
after_quiet-base_example =
    after_quiet-base executor (config "payments") doubled shrunk scaling 5 1_000_000_003
      (omega arith) (omega arith) (omega arith)

-- The first poll starts the workflow of the better priority, and the second finds no free place.
starts_one : map (λ t. t.id) twice_polled.tasks ≡ "b" ∷ []
unfolding poll_partition dispatch_all dispatch_dequeued inc_worker dequeue_workflows num_recent
    max_tasks reaches_limit claim_selected select_candidates claim_all claim_one claim is_candidate
    before partition_clause is_recent is_running count find update select sort_by
starts_one = refl
