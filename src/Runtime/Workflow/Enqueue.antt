-- ===== src/Runtime/Workflow/Enqueue.antt =====
-- runtime/workflow.rs: `enqueue_workflow`.
use dbos_transact_rs.Prelude.{ℕ, ◌+◌, String, Option, none, some, get_or, if◌then◌else◌}
use mathlib.Core.Option
use dbos_transact_rs.Error.DbosError
use dbos_transact_rs.Error.DbosError.{
  DbosError, other, dead_letter_queue, queue_deduplicated, awaited_workflow_cancelled, display,
}
use dbos_transact_rs.Exec.{Result, ok, err, Exec, transaction}
use dbos_transact_rs.Db.WorkflowStatusType.{WorkflowStatusType, enqueued, delayed}
use dbos_transact_rs.Db.Tables.{Db}
use dbos_transact_rs.Db.Status.Insert.{InsertWorkflowInput, InsertResult, insert_workflow_status}
use dbos_transact_rs.Serialize.Codec.{portable_name}
use dbos_transact_rs.Runtime.Workflow.{RegistryEntry, Executor, Handle, polling, not_registered}

pub record EnqueueOptions : Type 0 where
  pub workflow_id : Option String
  pub deduplication_id : Option String
  pub priority : Option ℕ
  pub queue_partition_key : Option String
  pub delay : Option ℕ
  pub application_version : Option String

abbrev pub delay_status : Option ℕ → WorkflowStatusType
delay_status none = enqueued
delay_status (some _) = delayed

module _ (x : Executor) where
  unfoldable pub enqueue_input :
      ℕ
      → String
      → String
      → String
      → String
      → RegistryEntry
      → Option String
      → EnqueueOptions
      → InsertWorkflowInput
  enqueue_input now id owner queue name entry inputs opts = record {
    workflow_id = id;
    status = delay_status opts.delay;
    name = name;
    queue_name = some queue;
    authenticated_user = none;
    assumed_role = none;
    authenticated_roles = none;
    executor_id = x.executor_id;
    application_version = some (get_or opts.application_version x.application_version);
    application_id = x.application_id;
    created_at = now;
    updated_at = now;
    recovery_attempts = 0;
    workflow_timeout_ms = none;
    workflow_deadline_epoch_ms = none;
    inputs = inputs;
    deduplication_id = opts.deduplication_id;
    priority = get_or opts.priority 0;
    queue_partition_key = opts.queue_partition_key;
    owner_xid = owner;
    parent_workflow_id = none;
    class_name = entry.class_name;
    config_name = entry.config_name;
    serialization = some portable_name;
    delay_until_epoch_ms = Option.map (λ d. now + d) opts.delay;
    increment = 0;
  }

-- A unique violation is that of the queue's deduplication ids.
unfoldable pub enqueue_error : InsertWorkflowInput → String → DbosError → DbosError
enqueue_error i queue e =
    if DbosError.is_db_unique_violation e
    then queue_deduplicated i.workflow_id queue (get_or i.deduplication_id "")
    else e

unfoldable pub enqueued_handle :
    InsertWorkflowInput → String → Result InsertResult × Db → Result Handle × Db
enqueued_handle i queue (ok _, db) = (ok (polling i.workflow_id), db)
enqueued_handle i queue (err e, db) = (err (enqueue_error i queue e), db)

module _ (x : Executor) where
  unfoldable pub enqueue_workflow :
      ℕ → String → String → String → String → Option String → EnqueueOptions → Exec Db Handle
  enqueue_workflow now uuid owner queue name inputs opts db = elim (x.registry name) [
    | none ↦ (err (not_registered name), db)
    | some entry ↦
        let i =
          enqueue_input x now (get_or opts.workflow_id uuid) owner queue name entry inputs opts in
        enqueued_handle i queue (transaction (insert_workflow_status i entry.max_retries) db)
  ]
