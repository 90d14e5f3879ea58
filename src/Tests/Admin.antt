-- ===== src/Tests/Admin.antt =====
-- A request for a workflow among two.
use dbos_transact_rs.Prelude.{◌≡◌, arith, Option, String, [], ◌∷◌, find, count}
use dbos_transact_rs.Exec.{Result, ok}
use dbos_transact_rs.Db.WorkflowStatusType.{pending, success}
use dbos_transact_rs.Db.Tables.{Db}
use dbos_transact_rs.Db.Management.List.{workflow_status_of}
use dbos_transact_rs.Serialize.Value.{Value, null}
use dbos_transact_rs.Runtime.Admin.{answer_json, get_workflow}
use dbos_transact_rs.Runtime.Admin.Wire.{workflow_to_wire}
use dbos_transact_rs.Runtime.Admin.Found.{get_workflow-row, shown}
use dbos_transact_rs.Tests.Fixtures.{plain_row, db_of}
use dbos_transact_rs.Tests.Serialize.Instance.{machine}

abbrev two : Db
two = db_of (plain_row "a" pending ∷ plain_row "b" success ∷ [])

abbrev as_null : Option String → Option String → Result Value
as_null text serialization = ok null

get_workflow-row_example : get_workflow machine as_null as_null "b" two ≡ (
  answer_json
      (workflow_to_wire machine (workflow_status_of as_null as_null (plain_row "b" success))),
  two,
)
unfolding count find shown
get_workflow-row_example = get_workflow-row machine as_null as_null "b" two (omega arith)
