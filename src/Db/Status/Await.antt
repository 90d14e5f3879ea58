-- ===== src/Db/Status/Await.antt =====
-- db/status.rs: `await_workflow_result`. The polls see one state of the database after the other;
-- `none` stands for a caller that still waits after them.
use dbos_transact_rs.Prelude.{
  ℕ, String, ◌≡◌, refl, Bool, false, ◌||◌, Option, none, some, List, [], ◌∷◌, arith, is_some,
}
use dbos_transact_rs.Db.WorkflowStatusType.{WorkflowStatusType, is_terminal}
use dbos_transact_rs.Db.Row.{WorkflowRow}
use dbos_transact_rs.Db.Tables.{Db}
use dbos_transact_rs.Db.View.{row_of}

pub data AwaitOutcome : Type 0 where
  success : Option String → Option String → AwaitOutcome
  error : Option String → Option String → AwaitOutcome
  cancelled : AwaitOutcome
  dead_letter : ℕ → AwaitOutcome

-- The match on the status of a row.
abbrev outcome_of : WorkflowStatusType → WorkflowRow → Option AwaitOutcome
outcome_of WorkflowStatusType.success r = some (success r.output r.serialization)
outcome_of WorkflowStatusType.error r = some (error r.error r.serialization)
outcome_of WorkflowStatusType.cancelled r = some cancelled
outcome_of WorkflowStatusType.max_recovery_attempts_exceeded r =
    some (dead_letter r.recovery_attempts)
outcome_of WorkflowStatusType.pending r = none
outcome_of WorkflowStatusType.enqueued r = none
outcome_of WorkflowStatusType.delayed r = none

-- One turn of the loop; `none` goes on waiting.
unfoldable pub poll : String → Db → Option AwaitOutcome
poll id db = elim (row_of id db) [ none ↦ none | some r ↦ outcome_of r.status r ]

abbrev or_wait : Option AwaitOutcome → Option AwaitOutcome → Option AwaitOutcome
or_wait (some o) later = some o
or_wait none later = later

unfoldable pub await_workflow_result : String → List Db → Option AwaitOutcome
unfolding poll
await_workflow_result id [] = none
await_workflow_result id (db ∷ later) =
    let rest = await_workflow_result id later in or_wait (poll id db) rest

-- The workflow is there and has ended.
abbrev pub has_ended : String → Db → Bool
has_ended id db = elim (row_of id db) [ none ↦ false | some r ↦ is_terminal r.status ]

abbrev pub any_ended : String → List Db → Bool
any_ended id [] = false
any_ended id (db ∷ later) = has_ended id db || any_ended id later

poll-has_ended : (id : String) (db : Db) → is_some (poll id db) ≡ has_ended id db
unfolding poll is_terminal
poll-has_ended id db = ground arith

-- The wait ends exactly when some poll finds the workflow in a terminal state.
pub await_workflow_result_ends :
    (id : String) (polls : List Db) → is_some (await_workflow_result id polls) ≡ any_ended id polls
unfolding await_workflow_result poll is_terminal
await_workflow_result_ends id [] = refl
await_workflow_result_ends id (db ∷ later) = ground (arith, await_workflow_result_ends id later)
