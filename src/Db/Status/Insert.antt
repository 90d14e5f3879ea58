-- ===== src/Db/Status/Insert.antt =====
-- db/status.rs: `insert_workflow_status`, inside the caller's transaction.
pub mod Laws
pub mod DeadLetter
use dbos_transact_rs.Prelude.{
  ℕ, suc, ◌+◌, String, Bool, true, false, not, ◌&&◌, ◌||◌, Option, none, some, [], ◌∷◌, ◌==◌, ltb,
  eqb, find, update, insert, select, format, column_eq, is_some, if◌then◌else◌, List,
}
use dbos_transact_rs.Prelude.Int.{ℤ, pos, negsuc}
use dbos_transact_rs.Error.Sqlx.{unique_violation}
use dbos_transact_rs.Error.DbosError.{from_sqlx, conflicting_workflow}
use dbos_transact_rs.Exec.{Result, ok, err, Exec, pure, raise, lift, write, ◌>>=◌, ◌>>◌}
use dbos_transact_rs.Db.WorkflowStatusType.{
  WorkflowStatusType, pending, enqueued, delayed, success, error, max_recovery_attempts_exceeded,
  same_status,
}
use dbos_transact_rs.Db.Row.{WorkflowRow, has_id}
use dbos_transact_rs.Db.Tables.{Db}

-- Times and increments are the non-negative values that the callers give.
pub record InsertWorkflowInput : Type 0 where
  pub workflow_id : String
  pub status : WorkflowStatusType
  pub name : String
  pub queue_name : Option String
  pub authenticated_user : Option String
  pub assumed_role : Option String
  pub authenticated_roles : Option String
  pub executor_id : String
  pub application_version : Option String
  pub application_id : Option String
  pub created_at : ℕ
  pub updated_at : ℕ
  pub recovery_attempts : ℕ
  pub workflow_timeout_ms : Option ℕ
  pub workflow_deadline_epoch_ms : Option ℕ
  pub inputs : Option String
  pub deduplication_id : Option String
  pub priority : ℕ
  pub queue_partition_key : Option String
  pub owner_xid : String
  pub parent_workflow_id : Option String
  pub class_name : Option String
  pub config_name : Option String
  pub serialization : Option String
  pub delay_until_epoch_ms : Option ℕ
  pub increment : ℕ

pub record InsertResult : Type 0 where
  pub recovery_attempts : ℕ
  pub status : WorkflowStatusType
  pub name : String
  pub queue_name : Option String
  pub owner_xid : Option String
  pub dlq_triggered : Bool

-- The row of VALUES; columns that the statement does not name take their defaults.
unfoldable pub fresh_row : InsertWorkflowInput → WorkflowRow
fresh_row i = record {
  workflow_uuid = i.workflow_id;
  status = i.status;
  name = i.name;
  queue_name = i.queue_name;
  authenticated_user = i.authenticated_user;
  assumed_role = i.assumed_role;
  authenticated_roles = i.authenticated_roles;
  executor_id = some i.executor_id;
  application_version = i.application_version;
  application_id = i.application_id;
  created_at = i.created_at;
  updated_at = i.updated_at;
  completed_at = none;
  recovery_attempts = i.recovery_attempts;
  workflow_timeout_ms = i.workflow_timeout_ms;
  workflow_deadline_epoch_ms = i.workflow_deadline_epoch_ms;
  started_at_epoch_ms = none;
  inputs = i.inputs;
  output = none;
  error = none;
  deduplication_id = i.deduplication_id;
  priority = i.priority;
  queue_partition_key = i.queue_partition_key;
  owner_xid = some i.owner_xid;
  parent_workflow_id = i.parent_workflow_id;
  class_name = i.class_name;
  config_name = i.config_name;
  serialization = i.serialization;
  delay_until_epoch_ms = i.delay_until_epoch_ms;
  rate_limited = false;
  forked_from = none;
  was_forked_from = false;
}

-- EXCLUDED.status IN (ENQUEUED, DELAYED)
unfoldable pub is_queued : InsertWorkflowInput → Bool
is_queued i = same_status i.status enqueued || same_status i.status delayed

-- ON CONFLICT (workflow_uuid) DO UPDATE
unfoldable pub touch : InsertWorkflowInput → WorkflowRow → WorkflowRow
unfolding is_queued
touch i r = record r {
  recovery_attempts =
      if not (is_queued i) then r.recovery_attempts + i.increment else r.recovery_attempts;
  updated_at = i.updated_at;
  executor_id = if is_queued i then r.executor_id else some i.executor_id;
}

-- The partial unique index of migration 27 on (queue_name, deduplication_id), in which NULLs are
-- distinct: does another row hold these two values?
abbrev both_eq : Option String → Option String → WorkflowRow → Bool
both_eq (some q) (some d) r = column_eq r.queue_name q && column_eq r.deduplication_id d
both_eq (some _) none r = false
both_eq none _ r = false

unfoldable pub is_duplicate : InsertWorkflowInput → List WorkflowRow → Bool
is_duplicate i rows = is_some (find (both_eq i.queue_name i.deduplication_id) rows)

unfoldable pub upsert_found : InsertWorkflowInput → Option WorkflowRow → Exec Db WorkflowRow
upsert_found i none db =
    if is_duplicate i db.workflow_status
    then (err (from_sqlx unique_violation), db)
    else (ok (fresh_row i), record db { workflow_status = insert (fresh_row i) db.workflow_status })
upsert_found i (some r) db = (
  ok (touch i r),
  record db { workflow_status = update (has_id i.workflow_id) (touch i) db.workflow_status },
)

-- INSERT … ON CONFLICT … RETURNING
unfoldable pub upsert : InsertWorkflowInput → Exec Db WorkflowRow
upsert i db = upsert_found i (find (has_id i.workflow_id) db.workflow_status) db

unfoldable pub queue_conflict : Option String → Option String → Option String
queue_conflict (some want) (some have) = if want == have then none else some have
queue_conflict (some want) none = none
queue_conflict none _ = none

-- Same id, but another name or another queue.
unfoldable pub check_conflict : InsertWorkflowInput → WorkflowRow → Result (Unit {0})
unfolding queue_conflict
check_conflict i r =
    if not (i.name == "") && not (r.name == i.name)
    then err (
        conflicting_workflow i.workflow_id
          (format ("it already exists with a different name (" ∷ r.name ∷ ")" ∷ [])))
    else elim (queue_conflict i.queue_name r.queue_name) [
      | none ↦ ok tt
      | some have ↦ err (
          conflicting_workflow i.workflow_id
            (format ("it already exists in a different queue (" ∷ have ∷ ")" ∷ [])))
    ]

-- `max_retries > 0 && attempts > max_retries + 1`
unfoldable pub exceeds : ℕ → ℤ → Bool
exceeds attempts (pos m) = ltb 0 m && ltb (m + 1) attempts
exceeds attempts (negsuc _) = false

unfoldable pub is_dead_letter : WorkflowRow → ℤ → Bool
unfolding exceeds
is_dead_letter r max_retries =
    not (same_status r.status success)
    && not (same_status r.status error)
    && exceeds r.recovery_attempts max_retries

-- The dead-letter UPDATE.
unfoldable pub bury : WorkflowRow → WorkflowRow
bury r = record r {
  status = max_recovery_attempts_exceeded;
  deduplication_id = none;
  started_at_epoch_ms = none;
  queue_name = none;
}

abbrev pub is_pending_id : String → WorkflowRow → Bool
is_pending_id id r = has_id id r && same_status r.status pending

-- The statement runs only where the threshold was passed.
unfoldable pub bury_if : Bool → String → Db → Db
bury_if false id db = db
bury_if true id db = record db {
  workflow_status = update (is_pending_id id) bury db.workflow_status;
}

unfoldable pub insert_workflow_status : InsertWorkflowInput → ℤ → Exec Db InsertResult
insert_workflow_status i max_retries = do
  row ← upsert i
  lift (check_conflict i row)
  write (bury_if (is_dead_letter row max_retries) i.workflow_id)
  pure (record {
    recovery_attempts = row.recovery_attempts;
    status = row.status;
    name = row.name;
    queue_name = row.queue_name;
    owner_xid = row.owner_xid;
    dlq_triggered = is_dead_letter row max_retries;
  })
