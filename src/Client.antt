-- ===== src/Client.antt =====
-- client.rs: an external application's operations on the system database. A handle is the id that
-- it polls. What only passes a call on (lists, garbage collection, streams) is the operation itself.
pub mod Claimed
use dbos_transact_rs.Prelude.{ℕ, ◌+◌, String, Option, none, some, List, [], ◌∷◌, get_or}
use mathlib.Core.Option
use dbos_transact_rs.Prelude.Int.{pos}
use dbos_transact_rs.Error.DbosError.{non_existent_workflow}
use dbos_transact_rs.Exec.{Result, ok, err, Exec, pure, raise, lift, transaction, ◌>>=◌, ◌>>◌}
use dbos_transact_rs.Db.Tables.{Db}
use dbos_transact_rs.Db.Status.Insert.{InsertWorkflowInput, insert_workflow_status}
use dbos_transact_rs.Db.Notifications.{insert_notification}
use dbos_transact_rs.Db.Management.Retire.{cancel_workflows, resume_workflows, internal_queue_name}
use dbos_transact_rs.Db.Management.Fork.{ForkWorkflowInput, fork_workflow}
use dbos_transact_rs.Serialize.Codec.{portable_name}
use dbos_transact_rs.Serialize.Serde.{Serde, Serial}
use dbos_transact_rs.Serialize.Formats.{portable, encode_value}
use dbos_transact_rs.Serialize.Input.{encode_input}
use dbos_transact_rs.Runtime.Workflow.{Handle, polling}
use dbos_transact_rs.Runtime.Workflow.Enqueue.{EnqueueOptions, delay_status, enqueued_handle}
use dbos_transact_rs.Runtime.Durable.{topic_or_null}

-- The row: no executor, and a version only where the options name one.
unfoldable pub client_input :
    ℕ → String → String → String → String → String → EnqueueOptions → InsertWorkflowInput
client_input now id owner queue name inputs opts = record {
  workflow_id = id;
  status = delay_status opts.delay;
  name = name;
  queue_name = some queue;
  authenticated_user = none;
  assumed_role = none;
  authenticated_roles = none;
  executor_id = "";
  application_version = opts.application_version;
  application_id = none;
  created_at = now;
  updated_at = now;
  recovery_attempts = 0;
  workflow_timeout_ms = none;
  workflow_deadline_epoch_ms = none;
  inputs = some inputs;
  deduplication_id = opts.deduplication_id;
  priority = get_or opts.priority 0;
  queue_partition_key = opts.queue_partition_key;
  owner_xid = owner;
  parent_workflow_id = none;
  class_name = none;
  config_name = none;
  serialization = some portable_name;
  delay_until_epoch_ms = Option.map (λ d. now + d) opts.delay;
  increment = 0;
}

unfoldable pub enqueue_encoded :
    ℕ → String → String → String → String → String → EnqueueOptions → Exec Db Handle
enqueue_encoded now uuid owner queue name inputs opts db =
    let i = client_input now (get_or opts.workflow_id uuid) owner queue name inputs opts in
    enqueued_handle i queue (transaction (insert_workflow_status i (pos 100)) db)

-- An operation on one id, of which none was found.
unfoldable pub found_one {ℓ} : {A : Type ℓ} → String → A → List String → Result A
found_one id a [] = err (non_existent_workflow id)
found_one id a (_ ∷ _) = ok a

unfoldable pub cancel_workflow : ℕ → String → Exec Db (Unit {0})
unfolding found_one
cancel_workflow now id = cancel_workflows now (id ∷ []) >>= λ found. lift (found_one id tt found)

unfoldable pub resume_workflow : ℕ → String → Exec Db Handle
unfolding found_one
resume_workflow now id = resume_workflows now (id ∷ []) internal_queue_name >>= λ found.
    lift (found_one id (polling id) found)

unfoldable pub fork_handle : ℕ → String → ForkWorkflowInput → Exec Db Handle
fork_handle now uuid i = fork_workflow now uuid i >>= λ id. pure (polling id)

unfoldable pub retrieve_workflow : String → Handle
retrieve_workflow id = polling id

module _ (J : Serde) {P : Type 0} (C : Serial P) where
  unfoldable pub enqueue :
      ℕ → String → String → String → String → P → EnqueueOptions → Exec Db Handle
  unfolding enqueue_encoded
  enqueue now uuid owner queue name input opts =
      lift (encode_input J C input portable) >>= λ encoded.
      enqueue_encoded now uuid owner queue name encoded opts

  unfoldable pub send : ℕ → String → String → P → Option String → Exec Db (Unit {0})
  send now uuid destination message topic = lift (encode_value J C message portable) >>= λ encoded.
      insert_notification now uuid destination (topic_or_null topic) encoded portable_name
