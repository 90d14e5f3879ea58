-- ===== src/Tests/Fixtures.antt =====
-- Rows and databases that the tests share.
use dbos_transact_rs.Prelude.{ℕ, String, false, none, some, List}
use dbos_transact_rs.Db.WorkflowStatusType.{WorkflowStatusType, enqueued}
use dbos_transact_rs.Db.Row.{WorkflowRow}
use dbos_transact_rs.Db.Tables
use dbos_transact_rs.Db.Tables.{Db}

abbrev pub plain_row : String → WorkflowStatusType → WorkflowRow
plain_row id status = record {
  workflow_uuid = id;
  status = status;
  name = "checkout";
  queue_name = none;
  authenticated_user = none;
  assumed_role = none;
  authenticated_roles = none;
  executor_id = some "local";
  application_version = some "v1";
  application_id = none;
  created_at = 100;
  updated_at = 100;
  completed_at = none;
  recovery_attempts = 1;
  workflow_timeout_ms = none;
  workflow_deadline_epoch_ms = none;
  started_at_epoch_ms = none;
  inputs = some "{}";
  output = none;
  error = none;
  deduplication_id = none;
  priority = 0;
  queue_partition_key = none;
  owner_xid = some "x1";
  parent_workflow_id = none;
  class_name = none;
  config_name = none;
  serialization = some "portable_json";
  delay_until_epoch_ms = none;
  rate_limited = false;
  forked_from = none;
  was_forked_from = false;
}

abbrev pub queued_row : String → ℕ → WorkflowRow
queued_row id priority = record (plain_row id enqueued) {
  queue_name = some "payments";
  priority = priority;
}

abbrev pub db_of : List WorkflowRow → Db
db_of rows = record Tables.empty { workflow_status = rows }
