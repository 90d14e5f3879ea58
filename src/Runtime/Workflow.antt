-- ===== src/Runtime/Workflow.antt =====
-- runtime/workflow.rs: `start_workflow` up to the spawn of the body, what the spawned task records,
-- `enqueue_workflow` and `get_result`; runtime/registry.rs: the registry. The texts of serde_json
-- for a list of roles are a parameter.
pub mod Start
pub mod Enqueue
pub mod Child
use dbos_transact_rs.Prelude.{
  ℕ, ◌+◌, ◌-◌, String, Bool, true, false, not, ◌&&◌, ◌||◌, Option, none, some, List, [], ◌∷◌, ◌==◌,
  column_eq, get_or, or_else, format, decimal, if◌then◌else◌,
}
use mathlib.Core.Option
use dbos_transact_rs.Prelude.Int.{ℤ, pos, sub_ℕ}
use dbos_transact_rs.Error.DbosError
use dbos_transact_rs.Error.DbosError.{
  DbosError, other, dead_letter_queue, queue_deduplicated, awaited_workflow_cancelled, display,
}
use dbos_transact_rs.Exec.{Result, ok, err, Exec, pure, raise, lift, transaction, ◌>>=◌, ◌>>◌}
use dbos_transact_rs.Db.WorkflowStatusType
use dbos_transact_rs.Db.WorkflowStatusType.{
  WorkflowStatusType, pending, enqueued, delayed, same_status,
}
use dbos_transact_rs.Db.Tables.{Db}
use dbos_transact_rs.Db.Status.Insert.{InsertWorkflowInput, InsertResult, insert_workflow_status}
use dbos_transact_rs.Db.Status.Outcome.{update_workflow_outcome}
use dbos_transact_rs.Db.Status.Await.{AwaitOutcome, success, error, cancelled, dead_letter}
use dbos_transact_rs.Db.Steps.{record_child_workflow}
use dbos_transact_rs.Serialize.Codec.{Codec, portable_name}
use dbos_transact_rs.Runtime.Session.{AuthIdentity, WorkflowState}

pub record WorkflowOptions : Type 0 where
  pub workflow_id : Option String
  pub application_version : Option String
  pub authenticated_user : Option String
  pub assumed_role : Option String
  pub authenticated_roles : Option (List String)

-- What the registry holds beside the handler.
pub record RegistryEntry : Type 0 where
  pub max_retries : ℤ
  pub class_name : Option String
  pub config_name : Option String

-- What an executor has that these operations read.
pub record Executor : Type 0 where
  pub executor_id : String
  pub application_version : String
  pub application_id : Option String
  pub registry : String → Option RegistryEntry

-- A handle: this call runs the body, or the result is read from the database.
pub data Handle : Type 0 where
  owned : String → Handle
  polling : String → Handle

unfoldable pub not_registered : String → DbosError
not_registered name = other (format ("workflow " ∷ name ∷ " is not registered" ∷ []))

-- The explicit id, or one made of the parent's id and step, or a random one.
unfoldable pub start_id : Option String → Option (WorkflowState × ℕ) → String → String
start_id (some id) parent uuid = id
start_id none (some (p, step)) uuid = format (p.workflow_id ∷ "-" ∷ decimal step ∷ [])
start_id none none uuid = uuid

abbrev pub parent_auth : Option (WorkflowState × ℕ) → AuthIdentity
parent_auth none = record { user = none; role = none; roles = [] }
parent_auth (some (p, step)) = p.auth

-- What the options leave open is the parent's.
unfoldable pub resolve_auth : WorkflowOptions → Option (WorkflowState × ℕ) → AuthIdentity
resolve_auth opts parent = record {
  user = or_else opts.authenticated_user (parent_auth parent).user;
  role = or_else opts.assumed_role (parent_auth parent).role;
  roles = get_or opts.authenticated_roles (parent_auth parent).roles;
}

-- No roles are stored as NULL.
abbrev pub stored_roles : (List String → Option String) → List String → Option String
stored_roles roles_text [] = none
stored_roles roles_text (r ∷ rs) = roles_text (r ∷ rs)

abbrev pub parent_id : Option (WorkflowState × ℕ) → Option String
parent_id none = none
parent_id (some (p, step)) = some p.workflow_id

module _ (roles_text : List String → Option String) (x : Executor) where
  -- `owner` is the random id of this call.
  unfoldable pub start_input :
      ℕ
      → String
      → String
      → String
      → RegistryEntry
      → Option String
      → WorkflowOptions
      → Option (WorkflowState × ℕ)
      → String
      → Bool
      → InsertWorkflowInput
  unfolding resolve_auth
  start_input now id owner name entry inputs opts parent fmt is_recovery = record {
    workflow_id = id;
    status = pending;
    name = name;
    queue_name = none;
    authenticated_user = (resolve_auth opts parent).user;
    assumed_role = (resolve_auth opts parent).role;
    authenticated_roles = stored_roles roles_text (resolve_auth opts parent).roles;
    executor_id = x.executor_id;
    application_version = some (get_or opts.application_version x.application_version);
    application_id = x.application_id;
    created_at = now;
    updated_at = now;
    recovery_attempts = 1;
    workflow_timeout_ms = none;
    workflow_deadline_epoch_ms = none;
    inputs = inputs;
    deduplication_id = none;
    priority = 0;
    queue_partition_key = none;
    owner_xid = owner;
    parent_workflow_id = parent_id parent;
    class_name = entry.class_name;
    config_name = entry.config_name;
    serialization = some fmt;
    delay_until_epoch_ms = none;
    increment = if is_recovery then 1 else 0;
  }

-- The mapping from the parent's step to the child.
unfoldable pub record_child : ℕ → Option (WorkflowState × ℕ) → String → String → Exec Db (Unit {0})
record_child now none name id = pure tt
record_child now (some (p, step)) name id = record_child_workflow now p.workflow_id step name id

-- The transaction. A burial commits, without the child's mapping.
unfoldable pub claim_start :
    ℕ → InsertWorkflowInput → ℤ → Option (WorkflowState × ℕ) → Exec Db InsertResult
claim_start now i max_retries parent = transaction do
  res ← insert_workflow_status i max_retries
  if res.dlq_triggered
      then pure res
      else (record_child now parent i.name i.workflow_id >>= λ _. pure res)

unfoldable pub should_skip : InsertResult → Bool → String → Bool
should_skip res is_recovery owner =
    same_status res.status WorkflowStatusType.success
    || same_status res.status WorkflowStatusType.error
    || (not is_recovery && not (column_eq res.owner_xid owner))

unfoldable pub handle_of : String → ℤ → Bool → String → InsertResult → Result Handle
unfolding should_skip
handle_of id max_retries is_recovery owner res =
    if res.dlq_triggered
    then err (dead_letter_queue id max_retries)
    else if should_skip res is_recovery owner
    then ok (polling id)
    else ok (owned id)

unfoldable pub start_input_workflow :
    ℕ → InsertWorkflowInput → ℤ → Option (WorkflowState × ℕ) → Bool → Exec Db Handle
start_input_workflow now i max_retries parent is_recovery = do
  res ← claim_start now i max_retries parent
  lift (handle_of i.workflow_id max_retries is_recovery i.owner_xid res)

module _ (roles_text : List String → Option String) (x : Executor) where
  unfoldable pub start_workflow :
      ℕ
      → String
      → String
      → String
      → Option String
      → WorkflowOptions
      → Option (WorkflowState × ℕ)
      → String
      → Bool
      → Exec Db Handle
  start_workflow now uuid owner name inputs opts parent fmt is_recovery = elim (x.registry name) [
    | none ↦ raise (not_registered name)
    | some entry ↦
        start_input_workflow now
          (start_input roles_text x now (start_id opts.workflow_id parent uuid) owner name entry
            inputs opts parent fmt is_recovery)
          entry.max_retries parent is_recovery
  ]

-- What the spawned task records when the body ends; `error_text` is `serialize_workflow_error`.
unfoldable pub record_outcome : (String → String) → ℕ → String → Result String → Exec Db (Unit {0})
record_outcome error_text now id (ok out) =
    update_workflow_outcome now id WorkflowStatusType.success (some out) none
record_outcome error_text now id (err e) =
    update_workflow_outcome now id WorkflowStatusType.error none (some (error_text (display e)))

module _ {R : Type 0} (codec : Codec R) where
  -- The error of a workflow that failed; one without a text has a text of its own.
  abbrev pub failure : Option String → Option String → DbosError
  failure none serialization = other "workflow failed"
  failure (some text) serialization = codec.decode_error text serialization

  -- What a polling handle makes of an outcome.
  unfoldable pub result_of : String → AwaitOutcome → Result R
  result_of id (success output serialization) = codec.decode output serialization
  result_of id (error text serialization) = err (failure text serialization)
  result_of id cancelled = err (awaited_workflow_cancelled id)
  result_of id (dead_letter recovery_attempts) =
      err (dead_letter_queue id (sub_ℕ recovery_attempts 2))
