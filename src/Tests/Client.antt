-- ===== src/Tests/Client.antt =====
-- A client that enqueues, and an executor that polls.
use dbos_transact_rs.Prelude.{
  ◌≤◌, ◌≡◌, refl, arith, Bool, true, false, none, some, [], ◌∷◌, ◌==◌, count, find,
}
use dbos_transact_rs.Exec.{ok}
use dbos_transact_rs.Db.Row.{WorkflowRow}
use dbos_transact_rs.Db.Tables.{Db}
use dbos_transact_rs.Db.Status.Insert.{is_duplicate}
use dbos_transact_rs.Db.Queue.Dequeue.{DequeueInput, dequeue_workflows, max_tasks, is_candidate}
use dbos_transact_rs.Db.Queue.Dequeue.Iteration.{claimed_by}
use dbos_transact_rs.Serialize.Value.{boolean}
use dbos_transact_rs.Serialize.Input.{args_value, encode_input}
use dbos_transact_rs.Serialize.InputRoundTrip.{envelope_of}
use dbos_transact_rs.Runtime.Workflow.{polling}
use dbos_transact_rs.Runtime.Workflow.Enqueue.{EnqueueOptions}
use dbos_transact_rs.Client.{client_input, enqueue}
use dbos_transact_rs.Client.Claimed.{enqueue_claimed}
use dbos_transact_rs.Tests.Fixtures.{queued_row, db_of}
use dbos_transact_rs.Tests.Serialize.Machine.{print}
use dbos_transact_rs.Tests.Serialize.Instance.{machine, bool_serial}

abbrev options : EnqueueOptions
options = record {
  workflow_id = some "n";
  deduplication_id = none;
  priority = some 7;
  queue_partition_key = none;
  delay = none;
  application_version = none;
}

abbrev waiting : Db
waiting = db_of (queued_row "a" 2 ∷ [])

abbrev poll : DequeueInput
poll = record {
  queue_name = "payments";
  executor_id = "local";
  application_version = "v1";
  partition_key = none;
  local_running_count = 0;
  worker_concurrency = some 4;
  global_concurrency = none;
  max_tasks_per_iteration = 100;
  rate_limit = none;
}

abbrev unlocked : WorkflowRow → Bool
unlocked r = false

enqueue_claimed_example :
    ((enqueue machine bool_serial 4000 "u" "o" "payments" "pay" true options waiting).0
      ≡ ok (polling "n"))
    × (1
        ≤ count
            (λ w. w.id == "n")
            (claimed_by (
              dequeue_workflows unlocked poll 5000
                (enqueue machine bool_serial 4000 "u" "o" "payments" "pay" true options
                  waiting).1)))
unfolding count is_duplicate find max_tasks is_candidate encode_input client_input
enqueue_claimed_example =
    enqueue_claimed machine bool_serial 4000 "u" "n" "o" "payments" "pay"
      (print (args_value (envelope_of (boolean true)))) true options waiting poll 5000 unlocked refl
      refl refl refl refl refl refl refl refl refl refl (omega arith)
