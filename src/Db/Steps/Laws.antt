-- ===== src/Db/Steps/Laws.antt =====
-- What a recorded operation is read back as.
use dbos_transact_rs.Prelude.{ℕ, String, ◌≡◌, false, Option, none, some, eq_refl, insert}
use dbos_transact_rs.Error.Sqlx
use dbos_transact_rs.Error.DbosError.{conflicting_id}
use dbos_transact_rs.Exec.{Result, ok, err}
use dbos_transact_rs.Db.WorkflowStatusType.{cancelled, same_status}
use dbos_transact_rs.Db.Row.{WorkflowRow}
use dbos_transact_rs.Db.Tables.{Db, OperationRow}
use dbos_transact_rs.Db.View.{row_of}
use dbos_transact_rs.Db.Steps.{
  RecordedOperation, operation_of, guard_status, guard_name, check_operation_execution,
  operation_row, insert_operation, map_insert_error, record_operation_result,
}

-- The workflow is there and is not cancelled.
pub record IsLive (id : String) (db : Db) : Type 0 where
  pub row : WorkflowRow
  pub present : row_of id db ≡ some row
  pub not_cancelled : same_status row.status cancelled ≡ false

-- What was recorded at a step.
abbrev pub recorded : OperationRow → RecordedOperation
recorded r = record { output = r.output; error = r.error; serialization = r.serialization }

module _ (id : String) (step : ℕ) (name : String) (db : Db) (live : IsLive id db) where
  pub check-fresh :
      operation_of id step db ≡ none → check_operation_execution id step name db ≡ (ok none, db)
  unfolding check_operation_execution guard_status guard_name
  check-fresh h = rw (live.present) (rw (live.not_cancelled, h))

  pub check-recorded :
      (r : OperationRow)
      → operation_of id step db ≡ some r
      → r.function_name ≡ name
      → check_operation_execution id step name db ≡ (ok (some (recorded r)), db)
  unfolding check_operation_execution guard_status guard_name
  check-recorded r h e = rw (live.present) (rw (live.not_cancelled, h) (rw e (rw eq_refl)))

module _ (now : ℕ) (id : String) (step : ℕ) (name : String)
    (output failure child serialization : Option String) (db : Db) where
  abbrev new_row : OperationRow
  new_row = operation_row now id step name output failure child serialization

  abbrev recording : Result (Unit {0}) × Db
  recording = record_operation_result now id step name output failure child serialization db

  pub record-fresh :
      IsLive id db
      → operation_of id step db ≡ none
      → recording ≡ (ok tt, record db { operation_outputs = insert new_row db.operation_outputs })
  unfolding record_operation_result insert_operation operation_row map_insert_error
  record-fresh live h = rw (h) (rw (live.present))

  -- A step id is recorded once: a second record changes nothing and reports a conflict.
  pub record-conflict :
      (r : OperationRow)
      → operation_of id step db ≡ some r
      → recording ≡ (err (conflicting_id id), db)
  unfolding record_operation_result insert_operation operation_row map_insert_error
      Sqlx.is_unique_violation Sqlx.sqlstate
  record-conflict r h = rw h
