-- ===== src/Db/Steps.antt =====
-- db/steps.rs: recorded operations, the determinism check and child workflows.
pub mod Laws
use dbos_transact_rs.Prelude.{
  ℕ, String, Bool, true, false, ◌&&◌, Option, none, some, [], ◌∷◌, ◌==◌, eqb, find, insert, is_some,
  if◌then◌else◌, ◌⊎◌, inl, inr,
}
use mathlib.Core.Option
use dbos_transact_rs.Error.Sqlx
use dbos_transact_rs.Error.Sqlx.{SqlxError, unique_violation, foreign_key_violation}
use dbos_transact_rs.Error.DbosError.{
  DbosError, from_sqlx, conflicting_id, non_existent_workflow, workflow_cancelled, unexpected_step,
}
use dbos_transact_rs.Exec.{Result, ok, err, Exec, raise, pure, query, lift, ◌>>=◌, ◌>>◌}
use dbos_transact_rs.Db.WorkflowStatusType.{WorkflowStatusType, cancelled, same_status}
use dbos_transact_rs.Db.Row.{WorkflowRow, has_id}
use dbos_transact_rs.Db.Tables.{Db, OperationRow}
use dbos_transact_rs.Db.View.{row_of}

pub record RecordedOperation : Type 0 where
  pub output : Option String
  pub error : Option String
  pub serialization : Option String

-- The primary key of `operation_outputs`.
abbrev pub is_operation : String → ℕ → OperationRow → Bool
is_operation id step r = r.workflow_uuid == id && eqb r.function_id step

abbrev pub operation_of : String → ℕ → Db → Option OperationRow
operation_of id step db = find (is_operation id step) db.operation_outputs

-- The status guard: the workflow must exist and not be cancelled.
unfoldable pub guard_status : String → Option WorkflowRow → Result (Unit {0})
guard_status id none = err (non_existent_workflow id)
guard_status id (some r) =
    if same_status r.status cancelled then err (workflow_cancelled id) else ok tt

unfoldable pub guard_name :
    String → ℕ → String → Option OperationRow → Result (Option RecordedOperation)
guard_name id step expected none = ok none
guard_name id step expected (some r) =
    if r.function_name == expected
    then ok (some (record { output = r.output; error = r.error; serialization = r.serialization }))
    else err (unexpected_step id step expected r.function_name)

unfoldable pub check_operation_execution : String → ℕ → String → Exec Db (Option RecordedOperation)
check_operation_execution id step expected db =
    (lift (guard_status id (row_of id db)) >>= λ _.
    lift (guard_name id step expected (operation_of id step db)))
      db

unfoldable pub operation_row :
    ℕ
    → String
    → ℕ
    → String
    → Option String
    → Option String
    → Option String
    → Option String
    → OperationRow
operation_row now id step name output failure child serialization = record {
  workflow_uuid = id;
  function_id = step;
  function_name = name;
  output = output;
  error = failure;
  child_workflow_id = child;
  started_at_epoch_ms = some now;
  completed_at_epoch_ms = some now;
  serialization = serialization;
}

-- The INSERT and the constraints of the table: its primary key, and the workflow that it refers to.
unfoldable pub insert_operation : OperationRow → Db → (Unit {0} ⊎ SqlxError) × Db
insert_operation r db =
    if is_some (operation_of r.workflow_uuid r.function_id db)
    then (inr unique_violation, db)
    else if is_some (row_of r.workflow_uuid db)
    then (inl tt, record db { operation_outputs = insert r db.operation_outputs })
    else (inr foreign_key_violation, db)

-- A second record under one step id is a conflict.
unfoldable pub map_insert_error : String → Unit {0} ⊎ SqlxError → Result (Unit {0})
unfolding Sqlx.is_unique_violation
map_insert_error id (inl _) = ok tt
map_insert_error id (inr e) =
    if Sqlx.is_unique_violation e then err (conflicting_id id) else err (from_sqlx e)

unfoldable pub record_operation_result :
    ℕ
    → String
    → ℕ
    → String
    → Option String
    → Option String
    → Option String
    → Option String
    → Exec Db (Unit {0})
record_operation_result now id step name output failure child serialization db =
    let (r, db') =
      insert_operation (operation_row now id step name output failure child serialization) db in
    (map_insert_error id r, db')

unfoldable pub record_child_workflow : ℕ → String → ℕ → String → String → Exec Db (Unit {0})
unfolding record_operation_result
record_child_workflow now parent step name child =
    record_operation_result now parent step name none none (some child) none

-- The two options of the query, flattened.
unfoldable pub check_child_workflow : String → ℕ → Exec Db (Option String)
check_child_workflow parent step =
    query λ db. Option.bind (operation_of parent step db) (λ r. r.child_workflow_id)
