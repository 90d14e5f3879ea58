-- ===== src/Tests/Status.antt =====
-- Inserts, the dead-letter limit, outcomes and waits at concrete rows.
use dbos_transact_rs.Prelude.{
  String, ◌≡◌, ◌≢◌, refl, true, false, none, some, [], ◌∷◌, arith, find, ◌==◌, eq_iff, sym, ◌∙◌,
  is_some,
}
use mathlib.Core.Bool.{false≢true}
use dbos_transact_rs.Prelude.Int.{pos}
use dbos_transact_rs.Db.WorkflowStatusType.{
  pending, cancelled, max_recovery_attempts_exceeded, is_terminal,
}
use dbos_transact_rs.Db.Row.{WorkflowRow}
use dbos_transact_rs.Db.Tables.{Db}
use dbos_transact_rs.Db.View.{row_of}
use dbos_transact_rs.Db.Status.Insert.{InsertWorkflowInput}
use dbos_transact_rs.Db.Status.Insert.DeadLetter.{recoveries, dead_letter_exact}
use dbos_transact_rs.Db.Status.Await.{await_workflow_result, await_workflow_result_ends}
use dbos_transact_rs.Tests.Fixtures.{plain_row, db_of}

pub different : (s t : String) → (s == t) ≡ false → s ≢ t
different s t h e = false≢true (sym h ∙ (eq_iff s t).1 e)

abbrev recovery_input : InsertWorkflowInput
recovery_input = record {
  workflow_id = "w";
  status = pending;
  name = "checkout";
  queue_name = none;
  authenticated_user = none;
  assumed_role = none;
  authenticated_roles = none;
  executor_id = "local";
  application_version = some "v1";
  application_id = none;
  created_at = 500;
  updated_at = 500;
  recovery_attempts = 1;
  workflow_timeout_ms = none;
  workflow_deadline_epoch_ms = none;
  inputs = some "{}";
  deduplication_id = none;
  priority = 0;
  queue_partition_key = none;
  owner_xid = "x2";
  parent_workflow_id = none;
  class_name = none;
  config_name = none;
  serialization = some "portable_json";
  delay_until_epoch_ms = none;
  increment = 1;
}

abbrev two_rows : Db
two_rows = db_of (plain_row "v" pending ∷ plain_row "w" pending ∷ [])

dead_letter_exact_example :
    ((t : WorkflowRow) × (row_of "w" (recoveries 2 recovery_input (pos 2) two_rows) ≡ some t)
      × (t.status ≡ pending)
      × (t.recovery_attempts ≡ 3))
    × ((t : WorkflowRow) × (row_of "w" (recoveries 3 recovery_input (pos 2) two_rows) ≡ some t)
        × (t.status ≡ max_recovery_attempts_exceeded)
        × (t.queue_name ≡ none)
        × (t.deduplication_id ≡ none))
unfolding find
dead_letter_exact_example =
    dead_letter_exact recovery_input 2 2 two_rows (plain_row "w" pending)
      (record { is_pending = refl; counts = refl; direct = refl }) refl
      (record { is_pending = refl; named = refl; attempts = refl }) (omega arith) (omega arith)

abbrev cancelled_db : Db
cancelled_db = db_of (plain_row "w" cancelled ∷ [])

await_workflow_result_ends_example :
    is_some (await_workflow_result "w" (two_rows ∷ cancelled_db ∷ [])) ≡ true
unfolding find is_terminal
await_workflow_result_ends_example = await_workflow_result_ends "w" (two_rows ∷ cancelled_db ∷ [])
