-- ===== src/Db/Management/List.antt =====
-- db/management.rs: `list_workflows` and `get_workflow_steps`. The decoders into JSON values, of
-- serialize.rs, are parameters.
use dbos_transact_rs.Prelude.{
  ℕ, String, Bool, true, false, ◌&&◌, Option, none, some, List, [], ◌∷◌, map, ◌==◌, ltb, leb,
  select, column_eq, is_some, any_eq, take, drop, if◌then◌else◌,
}
use dbos_transact_rs.Prelude.Sort.{sort_by}
use dbos_transact_rs.Exec.{Result, ok, err, Exec, query}
use dbos_transact_rs.Db.WorkflowStatusType.{WorkflowStatusType, as_str, pending, enqueued, delayed}
use dbos_transact_rs.Db.Row.{WorkflowRow}
use dbos_transact_rs.Db.Tables.{Db, OperationRow}

pub record WorkflowStatus (J : Type 0) : Type 0 where
  pub id : String
  pub status : WorkflowStatusType
  pub name : String
  pub queue_name : Option String
  pub executor_id : Option String
  pub application_version : Option String
  pub recovery_attempts : ℕ
  pub created_at : ℕ
  pub updated_at : ℕ
  pub completed_at : Option ℕ
  pub started_at : Option ℕ
  pub priority : ℕ
  pub deduplication_id : Option String
  pub parent_workflow_id : Option String
  pub forked_from : Option String
  pub was_forked_from : Bool
  pub config_name : Option String
  pub input : Option J
  pub output : Option J
  pub error : Option String

pub record StepInfo (J : Type 0) : Type 0 where
  pub step_id : ℕ
  pub step_name : String
  pub output : Option J
  pub error : Option String
  pub child_workflow_id : Option String
  pub started_at : Option ℕ
  pub completed_at : Option ℕ

pub record ListWorkflowsFilter : Type 0 where
  pub workflow_ids : Option (List String)
  pub status : Option (List WorkflowStatusType)
  pub workflow_name : Option String
  pub queue_name : Option String
  pub queues_only : Bool
  pub application_version : Option String
  pub executor_ids : Option (List String)
  pub start_time : Option ℕ
  pub end_time : Option ℕ
  pub limit : Option ℕ
  pub offset : Option ℕ
  pub sort_desc : Bool

abbrev pub no_filter : ListWorkflowsFilter
no_filter = record {
  workflow_ids = none;
  status = none;
  workflow_name = none;
  queue_name = none;
  queues_only = false;
  application_version = none;
  executor_ids = none;
  start_time = none;
  end_time = none;
  limit = none;
  offset = none;
  sort_desc = false;
}

-- `queues_only` with no status defaults to the live queued states.
unfoldable pub wanted_status :
    Bool → Option (List WorkflowStatusType) → Option (List WorkflowStatusType)
wanted_status true none = some (enqueued ∷ pending ∷ delayed ∷ [])
wanted_status true (some statuses) = some statuses
wanted_status false statuses = statuses

-- A condition that is pushed only where its filter is set.
abbrev pub if_set : {A : Type 0} → Option A → (A → Bool) → Bool
if_set none test = true
if_set (some a) test = test a

-- A filter that is an empty list is left out.
abbrev pub any_of : Option (List String) → (List String → Bool) → Bool
any_of none test = true
any_of (some []) test = true
any_of (some (x ∷ xs)) test = test (x ∷ xs)

abbrev pub column_any : Option String → List String → Bool
column_any none values = false
column_any (some c) values = any_eq values c

abbrev pub texts : Option (List WorkflowStatusType) → Option (List String)
texts none = none
texts (some statuses) = some (map as_str statuses)

-- The WHERE clause
unfoldable pub matches : ListWorkflowsFilter → WorkflowRow → Bool
unfolding wanted_status
matches f r =
    if_set f.workflow_ids (λ ids. any_eq ids r.workflow_uuid)
    && any_of (texts (wanted_status f.queues_only f.status)) (λ ts. any_eq ts (as_str r.status))
    && if_set f.workflow_name (λ n. r.name == n)
    && (if f.queues_only
        then is_some r.queue_name
        else if_set f.queue_name (λ q. column_eq r.queue_name q))
    && if_set f.application_version (λ v. column_eq r.application_version v)
    && any_of f.executor_ids (λ es. column_any r.executor_id es)
    && if_set f.start_time (λ t. leb t r.created_at)
    && if_set f.end_time (λ t. leb r.created_at t)

-- ORDER BY created_at, ascending or descending
unfoldable pub listed_before : Bool → WorkflowRow → WorkflowRow → Bool
listed_before desc a b =
    if desc then ltb b.created_at a.created_at else ltb a.created_at b.created_at

-- LIMIT and OFFSET: the rows after the offset, at most as many as the limit.
unfoldable pub page : Option ℕ → Option ℕ → List WorkflowRow → List WorkflowRow
page none none rows = rows
page none (some o) rows = drop o rows
page (some l) none rows = take l rows
page (some l) (some o) rows = take l (drop o rows)

unfoldable pub listed_rows : ListWorkflowsFilter → Db → List WorkflowRow
listed_rows f db =
    page f.limit f.offset
      (sort_by (listed_before f.sort_desc) (select (matches f) db.workflow_status))

module _ {J : Type 0} (decode : Option String → Option String → Result J) where
  -- A missing text, or one that does not decode, gives no value.
  unfoldable pub decode_opt : Option String → Option String → Option J
  decode_opt none serialization = none
  decode_opt (some s) serialization = elim (decode (some s) serialization) [
    | ok v ↦ some v
    | err _ ↦ none
  ]

module _ {J : Type 0} (decode_input decode_value : Option String → Option String → Result J) where
  unfoldable pub workflow_status_of : WorkflowRow → WorkflowStatus J
  unfolding decode_opt
  workflow_status_of r = record {
    id = r.workflow_uuid;
    status = r.status;
    name = r.name;
    queue_name = r.queue_name;
    executor_id = r.executor_id;
    application_version = r.application_version;
    recovery_attempts = r.recovery_attempts;
    created_at = r.created_at;
    updated_at = r.updated_at;
    completed_at = r.completed_at;
    started_at = r.started_at_epoch_ms;
    priority = r.priority;
    deduplication_id = r.deduplication_id;
    parent_workflow_id = r.parent_workflow_id;
    forked_from = r.forked_from;
    was_forked_from = r.was_forked_from;
    config_name = r.config_name;
    input = decode_opt decode_input r.inputs r.serialization;
    output = decode_opt decode_value r.output r.serialization;
    error = r.error;
  }

  unfoldable pub list_workflows : ListWorkflowsFilter → Exec Db (List (WorkflowStatus J))
  list_workflows f = query λ db. map workflow_status_of (listed_rows f db)

module _ {J : Type 0} (decode_value : Option String → Option String → Result J) where
  abbrev pub step_info : OperationRow → StepInfo J
  step_info r = record {
    step_id = r.function_id;
    step_name = r.function_name;
    output = decode_opt decode_value r.output r.serialization;
    error = r.error;
    child_workflow_id = r.child_workflow_id;
    started_at = r.started_at_epoch_ms;
    completed_at = r.completed_at_epoch_ms;
  }

  -- ORDER BY function_id ASC
  unfoldable pub get_workflow_steps : String → Exec Db (List (StepInfo J))
  get_workflow_steps id = query λ db. map step_info (
      sort_by (λ a b. ltb a.function_id b.function_id)
        (select (λ r. r.workflow_uuid == id) db.operation_outputs))
