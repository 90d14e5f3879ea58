-- ===== src/Db/Status/Pending.antt =====
-- db/status.rs: `list_pending_for_recovery`.
use dbos_transact_rs.Prelude.{
  String, Bool, ◌&&◌, Option, none, some, List, select, map, any_eq, column_eq,
}
use dbos_transact_rs.Exec.{Exec, query}
use dbos_transact_rs.Db.WorkflowStatusType.{pending, same_status}
use dbos_transact_rs.Db.Row.{WorkflowRow}
use dbos_transact_rs.Db.Tables.{Db}

pub record RecoverableWorkflow : Type 0 where
  pub id : String
  pub name : String
  pub inputs : Option String
  pub serialization : Option String
  pub queue_name : Option String
  pub authenticated_user : Option String
  pub assumed_role : Option String
  pub authenticated_roles : Option String
  pub config_name : Option String

abbrev pub recoverable : WorkflowRow → RecoverableWorkflow
recoverable r = record {
  id = r.workflow_uuid;
  name = r.name;
  inputs = r.inputs;
  serialization = r.serialization;
  queue_name = r.queue_name;
  authenticated_user = r.authenticated_user;
  assumed_role = r.assumed_role;
  authenticated_roles = r.authenticated_roles;
  config_name = r.config_name;
}

abbrev pub column_any : List String → Option String → Bool
column_any xs none = Bool.false
column_any xs (some c) = any_eq xs c

abbrev pub awaits_recovery : List String → String → WorkflowRow → Bool
awaits_recovery executor_ids version r =
    same_status r.status pending
    && column_any executor_ids r.executor_id
    && column_eq r.application_version version

unfoldable pub list_pending_for_recovery : List String → String → Exec Db (List RecoverableWorkflow)
list_pending_for_recovery executor_ids version =
    query λ db. map recoverable (select (awaits_recovery executor_ids version) db.workflow_status)
