-- ===== src/Db/Management/Fork.antt =====
-- db/management.rs: `fork_workflow`.
use dbos_transact_rs.Prelude.{
  ℕ, String, Bool, true, false, ◌&&◌, Option, none, some, List, [], ◌∷◌, ◌++◌, map, ◌==◌, ltb, eqb,
  max, select, update, insert, is_some, get_or, if◌then◌else◌,
}
use dbos_transact_rs.Error.Sqlx.{unique_violation}
use dbos_transact_rs.Error.DbosError.{from_sqlx, non_existent_workflow}
use dbos_transact_rs.Exec.{ok, err, Exec}
use dbos_transact_rs.Db.WorkflowStatusType.{enqueued}
use dbos_transact_rs.Db.Row.{WorkflowRow, has_id}
use dbos_transact_rs.Db.Tables.{Db, OperationRow, EventRow, EventHistoryRow, StreamRow}
use dbos_transact_rs.Db.View.{row_of}
use dbos_transact_rs.Db.Management.Retire.{internal_queue_name}

pub record ForkWorkflowInput : Type 0 where
  pub original_workflow_id : String
  pub forked_workflow_id : Option String
  pub start_step : ℕ
  pub application_version : Option String
  pub queue_name : Option String
  pub queue_partition_key : Option String

-- The row of the fork: what the statement lists, and the defaults of the other columns.
unfoldable pub forked_row : ℕ → String → ForkWorkflowInput → WorkflowRow → WorkflowRow
forked_row now id i original = record {
  workflow_uuid = id;
  status = enqueued;
  name = original.name;
  queue_name = some (get_or i.queue_name internal_queue_name);
  authenticated_user = original.authenticated_user;
  assumed_role = original.assumed_role;
  authenticated_roles = original.authenticated_roles;
  executor_id = none;
  application_version = i.application_version;
  application_id = original.application_id;
  created_at = now;
  updated_at = now;
  completed_at = none;
  recovery_attempts = 0;
  workflow_timeout_ms = none;
  workflow_deadline_epoch_ms = none;
  started_at_epoch_ms = none;
  inputs = original.inputs;
  output = none;
  error = none;
  deduplication_id = none;
  priority = 0;
  queue_partition_key = i.queue_partition_key;
  owner_xid = none;
  parent_workflow_id = none;
  class_name = original.class_name;
  config_name = original.config_name;
  serialization = original.serialization;
  delay_until_epoch_ms = none;
  rate_limited = false;
  forked_from = some i.original_workflow_id;
  was_forked_from = false;
}

-- The steps, history and stream entries of the original below `start`.
abbrev pub copied_step : String → ℕ → OperationRow → Bool
copied_step original start r = r.workflow_uuid == original && ltb r.function_id start

abbrev pub copied_history : String → ℕ → EventHistoryRow → Bool
copied_history original start r = r.workflow_uuid == original && ltb r.function_id start

abbrev pub copied_stream : String → ℕ → StreamRow → Bool
copied_stream original start r = r.workflow_uuid == original && ltb r.function_id start

-- MAX(function_id) of the rows of one key
unfoldable pub max_fid : String → List EventHistoryRow → ℕ
max_fid key [] = 0
max_fid key (r ∷ rows) =
    let rest = max_fid key rows in if r.key == key then max r.function_id rest else rest

-- The rows joined with the latest of their key.
unfoldable pub latest_of : List EventHistoryRow → List EventHistoryRow
unfolding max_fid
latest_of rows = select (λ r. eqb r.function_id (max_fid r.key rows)) rows

abbrev pub event_row : String → EventHistoryRow → EventRow
event_row id r = record {
  workflow_uuid = id;
  key = r.key;
  value = r.value;
  serialization = r.serialization;
}

abbrev pub renamed_step : String → OperationRow → OperationRow
renamed_step id r = record r { workflow_uuid = id }

abbrev pub renamed_history : String → EventHistoryRow → EventHistoryRow
renamed_history id r = record r { workflow_uuid = id }

abbrev pub renamed_entry : String → StreamRow → StreamRow
renamed_entry id r = record r { workflow_uuid = id }

-- The four INSERT … SELECT. The fork's id is new, so no table has a row for it yet.
unfoldable pub copy_steps : String → String → ℕ → Db → Db
unfolding latest_of
copy_steps id original start db = record db {
  operation_outputs =
      db.operation_outputs
      ++ map (renamed_step id) (select (copied_step original start) db.operation_outputs);
  workflow_events_history =
      db.workflow_events_history
      ++ map (renamed_history id)
          (select (copied_history original start) db.workflow_events_history);
  workflow_events =
      db.workflow_events
      ++ map (event_row id)
          (latest_of (select (copied_history original start) db.workflow_events_history));
  streams = db.streams ++ map (renamed_entry id) (select (copied_stream original start) db.streams);
}

unfoldable pub mark_forked : String → Db → Db
mark_forked original db = record db {
  workflow_status =
      update (has_id original) (λ r. record r { was_forked_from = true }) db.workflow_status;
}

unfoldable pub insert_fork : ℕ → String → ForkWorkflowInput → WorkflowRow → Db → Db
insert_fork now id i original db =
    let marked =
      mark_forked i.original_workflow_id (record db {
        workflow_status = insert (forked_row now id i original) db.workflow_status;
      }) in
    if ltb 0 i.start_step then copy_steps id i.original_workflow_id i.start_step marked else marked

unfoldable pub fork_of : ℕ → String → ForkWorkflowInput → Option WorkflowRow → Exec Db String
fork_of now id i none db = (err (non_existent_workflow i.original_workflow_id), db)
fork_of now id i (some original) db =
    if is_some (row_of id db)
    then (err (from_sqlx unique_violation), db)
    else (ok id, insert_fork now id i original db)

-- `uuid` is the random id that the code draws where the input has none.
unfoldable pub fork_workflow : ℕ → String → ForkWorkflowInput → Exec Db String
fork_workflow now uuid i db =
    fork_of now (get_or i.forked_workflow_id uuid) i (row_of i.original_workflow_id db) db
