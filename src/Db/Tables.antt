-- ===== src/Db/Tables.antt =====
-- The system database (migrations/): one list of rows for each table. A row has the columns that the
-- statements of this crate read or write.
use dbos_transact_rs.Prelude.{ℕ, String, Bool, Option, List, []}
use dbos_transact_rs.Db.Row.{WorkflowRow}

pub record OperationRow : Type 0 where
  pub workflow_uuid : String
  pub function_id : ℕ
  pub function_name : String
  pub output : Option String
  pub error : Option String
  pub child_workflow_id : Option String
  pub started_at_epoch_ms : Option ℕ
  pub completed_at_epoch_ms : Option ℕ
  pub serialization : Option String

pub record NotificationRow : Type 0 where
  pub destination_uuid : String
  pub topic : String
  pub message : String
  pub serialization : Option String
  pub message_uuid : String
  pub created_at_epoch_ms : ℕ
  pub consumed : Bool

pub record EventRow : Type 0 where
  pub workflow_uuid : String
  pub key : String
  pub value : String
  pub serialization : Option String

pub record EventHistoryRow : Type 0 where
  pub workflow_uuid : String
  pub function_id : ℕ
  pub key : String
  pub value : String
  pub serialization : Option String

pub record StreamRow : Type 0 where
  pub workflow_uuid : String
  pub key : String
  pub value : String
  pub offset : ℕ
  pub function_id : ℕ
  pub serialization : Option String

pub record Db : Type 0 where
  pub workflow_status : List WorkflowRow
  pub operation_outputs : List OperationRow
  pub notifications : List NotificationRow
  pub workflow_events : List EventRow
  pub workflow_events_history : List EventHistoryRow
  pub streams : List StreamRow

abbrev pub empty : Db
empty = record {
  workflow_status = [];
  operation_outputs = [];
  notifications = [];
  workflow_events = [];
  workflow_events_history = [];
  streams = [];
}
