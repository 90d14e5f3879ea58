-- ===== src/Tests/Queue.antt =====
-- One dequeue over three rows of a queue.
use dbos_transact_rs.Prelude.{
  ◌+◌, ◌≤◌, ◌≡◌, refl, Bool, true, false, none, some, [], ◌∷◌, arith, count, find, update, select,
  length, eq_iff, map, All, drop,
}
use dbos_transact_rs.Prelude.Sort.{sort_by}
use dbos_transact_rs.Exec.{ok}
use dbos_transact_rs.Db.Queue.Dequeue.RateLimit.{is_start, rate_limit_kept}
use dbos_transact_rs.Db.Queue.Dequeue.Priority.{
  IsRanked, Precedes, line, select_candidates-in_order,
}
use dbos_transact_rs.Db.WorkflowStatusType.{pending}
use dbos_transact_rs.Db.Row.{WorkflowRow}
use dbos_transact_rs.Db.Tables.{Db}
use dbos_transact_rs.Db.View.{UniqueIds}
use dbos_transact_rs.Db.Queue.Dequeue.{
  DequeueInput, dequeue_workflows, is_running, num_recent, max_tasks, reaches_limit, claim_selected,
  select_candidates, claim_all, claim_one, claim, is_candidate, before, partition_clause, is_recent,
}
use dbos_transact_rs.Db.Queue.Dequeue.Iteration.{claimed_by}
use dbos_transact_rs.Db.Queue.Dequeue.Bounds.{global_concurrency_kept}
use dbos_transact_rs.Tests.Fixtures.{queued_row, db_of}

abbrev waiting : Db
waiting = db_of (queued_row "a" 2 ∷ queued_row "b" 1 ∷ queued_row "c" 1 ∷ [])

abbrev limits : DequeueInput
limits = record {
  queue_name = "payments";
  executor_id = "local";
  application_version = "v1";
  partition_key = none;
  local_running_count = 1;
  worker_concurrency = some 4;
  global_concurrency = some 2;
  max_tasks_per_iteration = 100;
  rate_limit = some (10, 60000);
}

abbrev unlocked : WorkflowRow → Bool
unlocked r = false

-- The two of the better priority are claimed, the older first.
claims_in_order :
    map (λ w. w.id) (claimed_by (dequeue_workflows unlocked limits 5000 waiting)) ≡ "b" ∷ "c" ∷ []
unfolding dequeue_workflows num_recent max_tasks reaches_limit claim_selected select_candidates
    claim_all claim_one claim is_candidate before partition_clause is_recent is_running count find
    update select sort_by
claims_in_order = refl

waiting-UniqueIds : UniqueIds waiting
unfolding count
waiting-UniqueIds id = ground (
  arith,
  eq_iff "a" id,
  eq_iff "b" id,
  eq_iff "c" id,
  eq_iff "a" "b",
  eq_iff "a" "c",
  eq_iff "b" "c",
)

global_concurrency_kept_example :
    count (is_running limits) (dequeue_workflows unlocked limits 5000 waiting).1.workflow_status ≤ 2
unfolding count is_running
global_concurrency_kept_example =
    global_concurrency_kept unlocked limits 5000 2 waiting waiting-UniqueIds refl

-- Beside the rows that wait, one of the queue that was started within the minute.
abbrev recent_row : WorkflowRow
recent_row = record (queued_row "r" 1) {
  status = pending;
  started_at_epoch_ms = some 4000;
  rate_limited = true;
}

abbrev one_started : Db
one_started = db_of (recent_row ∷ queued_row "a" 2 ∷ [])

one_started-UniqueIds : UniqueIds one_started
unfolding count
one_started-UniqueIds id = ground (arith, eq_iff "r" id, eq_iff "a" id, eq_iff "r" "a")

rate_limit_kept_example :
    (count
        (is_start limits 5000 60000)
        (dequeue_workflows unlocked limits 5000 one_started).1.workflow_status
      ≡ 1 + length (claimed_by (dequeue_workflows unlocked limits 5000 one_started)))
    × (count
          (is_start limits 5000 60000)
          (dequeue_workflows unlocked limits 5000 one_started).1.workflow_status
        ≤ 10)
unfolding count
rate_limit_kept_example =
    rate_limit_kept unlocked limits 5000 10 60000 one_started one_started-UniqueIds refl
      (omega arith)

select_candidates-in_order_example :
    IsRanked (queued_row "b" 1 ∷ queued_row "c" 1 ∷ [])
    × All
        (λ a. All (Precedes a) (drop 2 (line unlocked limits waiting)))
        (queued_row "b" 1 ∷ queued_row "c" 1 ∷ [])
select_candidates-in_order_example =
    select_candidates-in_order unlocked limits 2 waiting (queued_row "b" 1 ∷ queued_row "c" 1 ∷ [])
      selected
  where
    selected :
        select_candidates unlocked limits 2 waiting ≡ ok (queued_row "b" 1 ∷ queued_row "c" 1 ∷ [])
    selected =
        unfold select_candidates is_candidate partition_clause before find select sort_by in refl
