-- ===== src/Tests/Workflow.antt =====
-- Two starts of one workflow.
use dbos_transact_rs.Prelude.{
  ℕ, arith, eq_iff, count, any_eq, ◌∷◌, String, ◌≡◌, refl, Option, none, some, List, [], find,
  false,
}
use dbos_transact_rs.Prelude.Int.{pos}
use dbos_transact_rs.Exec.{ok}
use dbos_transact_rs.Db.Tables
use dbos_transact_rs.Db.Tables.{Db}
use dbos_transact_rs.Runtime.Workflow.{
  WorkflowOptions, RegistryEntry, Executor, owned, polling, start_workflow,
}
use dbos_transact_rs.Runtime.Workflow.Start.{start_workflow_once}
use dbos_transact_rs.Db.Row.{WorkflowRow}
use dbos_transact_rs.Db.WorkflowStatusType.{pending}
use dbos_transact_rs.Db.View.{row_of, UniqueIds}
use dbos_transact_rs.Runtime.Recover.{recover_pending_workflows}
use dbos_transact_rs.Runtime.Recover.Isolation.{recover_pending_workflows-frame}
use dbos_transact_rs.Tests.Fixtures.{plain_row, db_of}
use dbos_transact_rs.Tests.Status.{different}

abbrev pub entry : RegistryEntry
entry = record { max_retries = pos 3; class_name = none; config_name = none }

abbrev pub executor : Executor
executor = record {
  executor_id = "local";
  application_version = "v1";
  application_id = none;
  registry = λ name. some entry;
}

abbrev pub remote : Executor
remote = record executor { executor_id = "remote" }

abbrev options : WorkflowOptions
options = record {
  workflow_id = some "w";
  application_version = none;
  authenticated_user = some "ann";
  assumed_role = none;
  authenticated_roles = none;
}

abbrev pub no_text : List String → Option String
no_text roles = none

start_workflow_once_example :
    ((start_workflow no_text executor 100 "u1" "x1" "checkout"
        (some "{}")
        options
        none
        "portable_json"
        false
        Tables.empty).0
      ≡ ok (owned "w"))
    × ((start_workflow no_text remote 200 "u2" "x2" "checkout"
          (some "{}")
          options
          none
          "portable_json"
          false
          (start_workflow no_text executor 100 "u1" "x1" "checkout"
            (some "{}")
            options
            none
            "portable_json"
            false
            Tables.empty).1).0
        ≡ ok (polling "w"))
unfolding find
start_workflow_once_example =
    start_workflow_once no_text executor remote entry 100 200 "w" "u1" "u2" "x1" "x2" "checkout"
      "portable_json" "portable_json" (some "{}") (some "{}") options options Tables.empty refl refl
      refl refl refl (different "x1" "x2" refl)

-- A workflow of this executor and one of another.
abbrev remote_row : WorkflowRow
remote_row = record (plain_row "r" pending) { executor_id = some "remote" }

abbrev two_executors : Db
two_executors = db_of (plain_row "w" pending ∷ remote_row ∷ [])

two_executors-UniqueIds : UniqueIds two_executors
unfolding count
two_executors-UniqueIds id = ground (arith, eq_iff "w" id, eq_iff "r" id, eq_iff "w" "r")

abbrev no_roles : String → Option (List String)
no_roles s = none

abbrev portable : Option String → String
portable s = "portable_json"

abbrev owner_ids : ℕ → String
owner_ids n = "x"

recover_pending_workflows-frame_example :
    row_of "r"
      (recover_pending_workflows no_text no_roles portable executor 900 owner_ids
        ("local" ∷ [])
        two_executors).1
    ≡ some remote_row
unfolding find any_eq
recover_pending_workflows-frame_example =
    recover_pending_workflows-frame no_text no_roles portable executor 900 owner_ids ("local" ∷ [])
      "r" two_executors remote_row two_executors-UniqueIds refl refl
