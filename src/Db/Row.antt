-- ===== src/Db/Row.antt =====
-- The rows of `workflow_status`.
use dbos_transact_rs.Prelude.{ℕ, String, Bool, Option, ◌==◌}
use dbos_transact_rs.Db.WorkflowStatusType.{WorkflowStatusType}

-- Times are epoch milliseconds. Times, counts and priorities are the non-negative values that
-- the code writes.
pub record WorkflowRow : Type 0 where
  pub workflow_uuid : String
  pub status : WorkflowStatusType
  pub name : String
  pub queue_name : Option String
  pub authenticated_user : Option String
  pub assumed_role : Option String
  pub authenticated_roles : Option String
  pub executor_id : Option String
  pub application_version : Option String
  pub application_id : Option String
  pub created_at : ℕ
  pub updated_at : ℕ
  pub completed_at : Option ℕ
  pub recovery_attempts : ℕ
  pub workflow_timeout_ms : Option ℕ
  pub workflow_deadline_epoch_ms : Option ℕ
  pub started_at_epoch_ms : Option ℕ
  pub inputs : Option String
  pub output : Option String
  pub error : Option String
  pub deduplication_id : Option String
  pub priority : ℕ
  pub queue_partition_key : Option String
  pub owner_xid : Option String
  pub parent_workflow_id : Option String
  pub class_name : Option String
  pub config_name : Option String
  pub serialization : Option String
  pub delay_until_epoch_ms : Option ℕ
  pub rate_limited : Bool
  pub forked_from : Option String
  pub was_forked_from : Bool

-- `workflow_uuid = $1`
abbrev pub has_id : String → WorkflowRow → Bool
has_id id r = r.workflow_uuid == id
