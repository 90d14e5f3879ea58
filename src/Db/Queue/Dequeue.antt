-- ===== src/Db/Queue/Dequeue.antt =====
-- db/queue.rs: `dequeue_workflows`, one transaction that claims ENQUEUED workflows.
pub mod Iteration
pub mod Bounds
pub mod Priority
pub mod Claims
pub mod Selected
pub mod RateLimit
use dbos_transact_rs.Prelude.{
  ℕ, ◌+◌, ◌-◌, String, Bool, true, false, not, ◌&&◌, ◌||◌, Option, none, some, List, [], ◌∷◌, ◌++◌,
  map, ◌==◌, leb, ltb, eqb, min, count, update, select, find, column_eq, is_some, length, take,
  if◌then◌else◌,
}
use dbos_transact_rs.Prelude.Sort.{sort_by}
use dbos_transact_rs.Error.Sqlx.{lock_not_available}
use dbos_transact_rs.Error.DbosError.{from_sqlx}
use dbos_transact_rs.Exec.{Result, Exec, ok, err, pure, raise, query, lift, transaction, ◌>>=◌}
use dbos_transact_rs.Db.WorkflowStatusType.{pending, enqueued, delayed, same_status}
use dbos_transact_rs.Db.Row.{WorkflowRow, has_id}
use dbos_transact_rs.Db.Tables.{Db}

-- A rate limit is a number of starts and a period in milliseconds.
pub record DequeueInput : Type 0 where
  pub queue_name : String
  pub executor_id : String
  pub application_version : String
  pub partition_key : Option String
  pub local_running_count : ℕ
  pub worker_concurrency : Option ℕ
  pub global_concurrency : Option ℕ
  pub max_tasks_per_iteration : ℕ
  pub rate_limit : Option (ℕ × ℕ)

pub record DequeuedWorkflow : Type 0 where
  pub id : String
  pub name : String
  pub inputs : Option String
  pub serialization : Option String
  pub config_name : Option String

-- `partition_clause`: nothing, or `AND queue_partition_key = …`
unfoldable pub partition_clause : Option String → WorkflowRow → Bool
partition_clause none r = true
partition_clause (some key) r = column_eq r.queue_partition_key key

-- started_at_epoch_ms > now - period
abbrev started_within : ℕ → ℕ → Option ℕ → Bool
started_within now period none = false
started_within now period (some started) = ltb now (started + period)

unfoldable pub is_recent : DequeueInput → ℕ → ℕ → WorkflowRow → Bool
unfolding partition_clause
is_recent i now period r =
    column_eq r.queue_name i.queue_name
    && r.rate_limited
    && not (same_status r.status enqueued || same_status r.status delayed)
    && started_within now period r.started_at_epoch_ms
    && partition_clause i.partition_key r

unfoldable pub num_recent : DequeueInput → ℕ → Db → ℕ
num_recent i now db = elim i.rate_limit [
  | none ↦ 0
  | some limit_period ↦ count (is_recent i now limit_period.1) db.workflow_status
]

-- A number of starts reaches the limit, if there is one.
unfoldable pub reaches_limit : DequeueInput → ℕ → Bool
reaches_limit i n = elim i.rate_limit [ none ↦ false | some limit_period ↦ leb limit_period.0 n ]

unfoldable pub is_running : DequeueInput → WorkflowRow → Bool
unfolding partition_clause
is_running i r =
    column_eq r.queue_name i.queue_name
    && same_status r.status pending
    && partition_clause i.partition_key r

-- The differences stop at 0, as `.max(0)` makes them.
abbrev worker_tasks : DequeueInput → ℕ
worker_tasks i = elim i.worker_concurrency [
  | none ↦ i.max_tasks_per_iteration
  | some wc ↦ wc - i.local_running_count
]

-- How many tasks this iteration may claim.
unfoldable pub max_tasks : DequeueInput → Db → ℕ
max_tasks i db = elim i.global_concurrency [
  | none ↦ worker_tasks i
  | some gc ↦ min (worker_tasks i) (gc - count (is_running i) db.workflow_status)
]

-- application_version = $3 OR application_version IS NULL
abbrev version_matches : Option String → String → Bool
version_matches none version = true
version_matches (some v) version = v == version

unfoldable pub is_candidate : DequeueInput → WorkflowRow → Bool
unfolding partition_clause
is_candidate i r =
    column_eq r.queue_name i.queue_name
    && same_status r.status enqueued
    && version_matches r.application_version i.application_version
    && partition_clause i.partition_key r

-- ORDER BY priority ASC, created_at ASC
unfoldable pub before : WorkflowRow → WorkflowRow → Bool
before a b =
    ltb a.priority b.priority || (eqb a.priority b.priority && ltb a.created_at b.created_at)

-- `locked` tells the rows that other transactions hold locked. SKIP LOCKED passes over them;
-- NOWAIT fails at the first one that it reaches before the limit.
unfoldable pub select_candidates :
    (WorkflowRow → Bool) → DequeueInput → ℕ → Db → Result (List WorkflowRow)
select_candidates locked i limit db =
    let rows = sort_by before (select (is_candidate i) db.workflow_status) in
    elim i.global_concurrency [
      | none ↦ ok (take limit (select (λ r. not (locked r)) rows))
      | some _ ↦
          if is_some (find locked (take limit rows))
          then err (from_sqlx lock_not_available)
          else ok (take limit rows)
    ]

-- CASE WHEN workflow_timeout_ms IS NOT NULL AND workflow_deadline_epoch_ms IS NULL
abbrev deadline : ℕ → Option ℕ → Option ℕ → Option ℕ
deadline now (some timeout) none = some (now + timeout)
deadline now (some timeout) (some d) = some d
deadline now none d = d

unfoldable pub claim : DequeueInput → ℕ → WorkflowRow → WorkflowRow
claim i now r = record r {
  status = pending;
  application_version = some i.application_version;
  executor_id = some i.executor_id;
  started_at_epoch_ms = some now;
  rate_limited = is_some i.rate_limit;
  workflow_deadline_epoch_ms = deadline now r.workflow_timeout_ms r.workflow_deadline_epoch_ms;
}

-- WHERE workflow_uuid = $6 AND status = ENQUEUED
abbrev pub is_claimable : String → WorkflowRow → Bool
is_claimable id r = has_id id r && same_status r.status enqueued

abbrev dequeued : String → WorkflowRow → DequeuedWorkflow
dequeued id r = record {
  id = id;
  name = r.name;
  inputs = r.inputs;
  serialization = r.serialization;
  config_name = r.config_name;
}

-- The UPDATE … RETURNING for one id.
unfoldable pub claim_one : DequeueInput → ℕ → String → Db → List DequeuedWorkflow × Db
claim_one i now id db = (
  elim (find (is_claimable id) db.workflow_status) [ none ↦ [] | some r ↦ dequeued id r ∷ [] ],
  record db { workflow_status = update (is_claimable id) (claim i now) db.workflow_status },
)

-- The loop over the candidates; `claimed` is the number that the rounds before claimed.
unfoldable pub claim_all : DequeueInput → ℕ → ℕ → ℕ → List String → Db → List DequeuedWorkflow × Db
claim_all i now recent claimed [] db = ([], db)
claim_all i now recent claimed (id ∷ ids) db =
    let (out, db') = claim_one i now id db in
    let rest = claim_all i now recent (claimed + length out) ids db' in
    if reaches_limit i (claimed + recent) then ([], db) else (out ++ rest.0, rest.1)

-- The transaction commits only if something was claimed.
abbrev pub commit_claimed : Db → List DequeuedWorkflow × Db → Result (List DequeuedWorkflow) × Db
commit_claimed db ([], db') = (ok [], db)
commit_claimed db (w ∷ ws, db') = (ok (w ∷ ws), db')

unfoldable pub claim_selected :
    DequeueInput → ℕ → Db → Result (List WorkflowRow) → Result (List DequeuedWorkflow) × Db
claim_selected i now db (err e) = (err e, db)
claim_selected i now db (ok rows) =
    commit_claimed db (claim_all i now (num_recent i now db) 0 (map (λ r. r.workflow_uuid) rows) db)

unfoldable pub dequeue_workflows :
    (WorkflowRow → Bool) → DequeueInput → ℕ → Exec Db (List DequeuedWorkflow)
dequeue_workflows locked i now db =
    if reaches_limit i (num_recent i now db)
    then (ok [], db)
    else if eqb (max_tasks i db) 0
    then (ok [], db)
    else claim_selected i now db (select_candidates locked i (max_tasks i db) db)
