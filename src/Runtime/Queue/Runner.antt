-- ===== src/Runtime/Queue/Runner.antt =====
-- runtime/queue.rs: the counts of running workflows, one cycle of the poll loop, the dispatch of a
-- claimed workflow, and what its task does at the end. A handler is its result.
use dbos_transact_rs.Prelude.{
  ℕ, ◌+◌, ◌-◌, ◌%◌, ◌^◌, max, min, String, Bool, false, ◌&&◌, ◌||◌, Option, none, some, List, [],
  ◌∷◌, ◌++◌, map, ◌==◌, get_or, if◌then◌else◌,
}
use mathlib.Core.Option
use dbos_transact_rs.Error.DbosError.{DbosError, is_db_contention, display}
use dbos_transact_rs.Exec.{Result, ok, err}
use dbos_transact_rs.Db.WorkflowStatusType
use dbos_transact_rs.Db.Row.{WorkflowRow}
use dbos_transact_rs.Db.Tables.{Db}
use dbos_transact_rs.Db.Status.Outcome.{update_workflow_outcome}
use dbos_transact_rs.Db.Queue.{transition_delayed_workflows, get_queue_partitions}
use dbos_transact_rs.Db.Queue.Dequeue.{DequeueInput, DequeuedWorkflow, dequeue_workflows}
use dbos_transact_rs.Runtime.Workflow.{Executor}
use dbos_transact_rs.Runtime.Queue.Options.{WorkflowQueue, RateLimiter}

-- A running workflow: the key of its count, its id, and the format of its row.
pub record Task : Type 0 where
  pub queue : String
  pub partition : String
  pub id : String
  pub serialization : Option String

-- The counts are those of `WorkerCounts`: an atomic usize for each (queue, partition) that has one.
pub record Runner : Type 0 where
  pub db : Db
  pub worker_counts : String → String → Option ℕ
  pub tasks : List Task

-- The atomics wrap around.
abbrev pub usize : ℕ
usize = 2 ^ 64

unfoldable pub count_key : String → Option String → String × String
count_key queue partition = (queue, get_or partition "")

unfoldable pub worker_count : (String → String → Option ℕ) → String → Option String → ℕ
unfolding count_key
worker_count counts queue partition =
    let (q, p) = count_key queue partition in get_or (counts q p) 0

abbrev pub is_key : String → String → String → String → Bool
is_key queue partition q p = queue == q && partition == p

-- `entry(key).or_insert(0).fetch_add(1)`
unfoldable pub inc_worker :
    String → String → (String → String → Option ℕ) → String → String → Option ℕ
inc_worker queue partition counts q p =
    if is_key queue partition q p then some ((get_or (counts q p) 0 + 1) % usize) else counts q p

-- `fetch_sub(1)`, where there is a count.
unfoldable pub dec_worker :
    String → String → (String → String → Option ℕ) → String → String → Option ℕ
dec_worker queue partition counts q p =
    if is_key queue partition q p
    then Option.map (λ n. (n + usize - 1) % usize) (counts q p)
    else counts q p

-- A workflow that is not registered is logged and left.
unfoldable pub dispatch_dequeued :
    Executor → String → Option String → DequeuedWorkflow → Runner → Runner
unfolding count_key
dispatch_dequeued x queue partition wf s = elim (x.registry wf.name) [
  | none ↦ s
  | some entry ↦
      let (q, p) = count_key queue partition in
      record s {
        worker_counts = inc_worker q p s.worker_counts;
        tasks =
            s.tasks
            ++ record { queue = q; partition = p; id = wf.id; serialization = wf.serialization }
              ∷ [];
      }
]

unfoldable pub dispatch_all :
    Executor → String → Option String → List DequeuedWorkflow → Runner → Runner
dispatch_all x queue partition [] s = s
dispatch_all x queue partition (wf ∷ wfs) s =
    dispatch_all x queue partition wfs (dispatch_dequeued x queue partition wf s)

-- `error_text` is `serialize_workflow_error` in the format of the row.
module _ (error_text : String → Option String → String) where
  recorded : ℕ → Task → Result String → Db → Result (Unit {0}) × Db
  recorded now t (ok out) =
      update_workflow_outcome now t.id WorkflowStatusType.success (some out) none
  recorded now t (err e) =
      update_workflow_outcome now t.id WorkflowStatusType.error none
        (some (error_text (display e) t.serialization))

  -- The end of a task: its outcome, of which an error is ignored, and the count.
  unfoldable pub finish_task : ℕ → Task → Result String → Runner → Runner
  unfolding recorded
  finish_task now t result s = record s {
    db = (recorded now t result s.db).1;
    worker_counts = dec_worker t.queue t.partition s.worker_counts;
  }

unfoldable pub dequeue_input :
    Executor → WorkflowQueue → Option String → (String → String → Option ℕ) → DequeueInput
unfolding worker_count
dequeue_input x q partition counts = record {
  queue_name = q.name;
  executor_id = x.executor_id;
  application_version = x.application_version;
  partition_key = partition;
  local_running_count = worker_count counts q.name partition;
  worker_concurrency = q.worker_concurrency;
  global_concurrency = q.global_concurrency;
  max_tasks_per_iteration = q.max_tasks_per_iteration;
  rate_limit = Option.map (λ (r : RateLimiter). (r.limit, r.period)) q.rate_limit;
}

-- What a dequeue gave: the workflows are dispatched, and contention asks for a longer wait.
unfoldable pub after_dequeue :
    Executor
    → WorkflowQueue
    → Option String
    → Runner
    → Result (List DequeuedWorkflow) × Db
    → Bool × Runner
after_dequeue x q partition s (ok wfs, db) =
    (false, dispatch_all x q.name partition wfs (record s { db = db }))
after_dequeue x q partition s (err e, db) = (is_db_contention e, record s { db = db })

-- The end of a cycle; `twice` and `nine_tenths` are `mul_f64(2.0)` and `mul_f64(0.9)`.
unfoldable pub next_interval : WorkflowQueue → (ℕ → ℕ) → (ℕ → ℕ) → Bool → ℕ → ℕ
next_interval q twice nine_tenths had_backoff interval =
    if had_backoff
    then min (twice interval) q.max_polling
    else max (nine_tenths interval) q.base_polling

abbrev read_or {ℓ} : {A : Type ℓ} → Option DbosError → Result A → Result A
read_or none r = r
read_or (some e) r = err e

module _ (x : Executor) (q : WorkflowQueue) (now : ℕ) (locked : WorkflowRow → Bool) where
  unfoldable pub poll_partition : Option String → Runner → Bool × Runner
  unfolding dequeue_input after_dequeue
  poll_partition partition s =
      after_dequeue x q partition s
        (dequeue_workflows locked (dequeue_input x q partition s.worker_counts) now s.db)

  -- The loop over the partitions, with `had_backoff`.
  unfoldable pub poll_partitions : List (Option String) → Bool → Runner → Bool × Runner
  poll_partitions [] had_backoff s = (had_backoff, s)
  poll_partitions (p ∷ ps) had_backoff s =
      let (contended, s') = poll_partition p s in poll_partitions ps (had_backoff || contended) s'

  -- The partitions to poll, or an error that skips the cycle. `failure` is that of the connection, if
  -- it fails while the partitions are read.
  unfoldable pub partitions_of : Option DbosError → Db → Result (List (Option String))
  partitions_of failure db =
      if q.partition_queue
      then elim (read_or failure ((get_queue_partitions q.name db).0)) [
        | ok keys ↦ ok (map some keys)
        | err e ↦ err e
      ]
      else ok (none ∷ [])

  module _ (twice nine_tenths : ℕ → ℕ) where
    unfoldable pub poll_cycle : ℕ → Runner → Result (List (Option String)) → ℕ × Runner
    poll_cycle interval s (err e) = (min (twice interval) q.max_polling, s)
    poll_cycle interval s (ok ps) =
        let (had_backoff, s') = poll_partitions ps false s in
        (next_interval q twice nine_tenths had_backoff interval, s')

    -- One cycle after the wait: delayed work is promoted, the partitions are polled, and the
    -- interval is adapted.
    unfoldable pub run_cycle : Option DbosError → ℕ → Runner → ℕ × Runner
    unfolding poll_cycle
    run_cycle failure interval s =
        let promoted = record s { db = (transition_delayed_workflows now s.db).1 } in
        poll_cycle interval promoted (partitions_of failure promoted.db)
