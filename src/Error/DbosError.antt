-- ===== src/Error/DbosError.antt =====
-- error.rs: `DbosError`, its context, its constructors, `Display` and the conversions.
use dbos_transact_rs.Prelude.{
  ℕ, String, Bool, false, not, ◌&&◌, ◌||◌, Option, none, some, [], ◌∷◌, ◌==◌, eqb, format, decimal,
  if◌then◌else◌,
}
use dbos_transact_rs.Prelude.Int.{ℤ, show}
use dbos_transact_rs.Error.Code.{DbosErrorCode, as_i32, same_code}
use dbos_transact_rs.Error.Sqlx
use dbos_transact_rs.Error.Sqlx.{SqlxError}

pub record ErrorContext : Type 0 where
  pub workflow_id : Option String
  pub destination_id : Option String
  pub step_name : Option String
  pub queue_name : Option String
  pub deduplication_id : Option String
  pub step_id : Option ℕ
  pub expected_name : Option String
  pub recorded_name : Option String
  pub max_retries : Option ℤ

abbrev pub no_context : ErrorContext
no_context = record {
  workflow_id = none;
  destination_id = none;
  step_name = none;
  queue_name = none;
  deduplication_id = none;
  step_id = none;
  expected_name = none;
  recorded_name = none;
  max_retries = none;
}

-- The boxed source of an error: the code downcasts it to `sqlx::Error` only.
pub data BoxError : Type 0 where
  sqlx : SqlxError → BoxError
  opaque : String → BoxError

pub record DbosError : Type 0 where
  pub code : DbosErrorCode
  pub message : String
  pub context : Option ErrorContext
  pub source : Option BoxError

unfoldable pub new : DbosErrorCode → String → DbosError
new code message = record { code = code; message = message; context = none; source = none }

-- `new` followed by writes through `ctx()`.
unfoldable pub new_with : DbosErrorCode → String → ErrorContext → DbosError
new_with code message c = record { code = code; message = message; context = some c; source = none }

-- Code `Unspecified` never matches.
unfoldable pub is : DbosError → DbosErrorCode → Bool
unfolding same_code
is e code = not (same_code code DbosErrorCode.unspecified) && same_code e.code code

unfoldable pub is_code : DbosError → ℕ → Bool
unfolding as_i32
is_code e code = not (eqb code 0) && eqb (as_i32 e.code) code

unfoldable pub with_source : DbosError → BoxError → DbosError
with_source e source = record e { source = some source }

unfoldable pub source_sqlx : DbosError → Option SqlxError
source_sqlx e = elim e.source [
  | none ↦ none
  | some source ↦ elim source [ sqlx s ↦ some s | opaque _ ↦ none ]
]

unfoldable pub is_db_contention : DbosError → Bool
unfolding source_sqlx Sqlx.is_contention Sqlx.is_lock_not_available
is_db_contention e = elim (source_sqlx e) [
  | none ↦ false
  | some s ↦ Sqlx.is_contention s || Sqlx.is_lock_not_available s
]

unfoldable pub is_db_unique_violation : DbosError → Bool
unfolding source_sqlx Sqlx.is_unique_violation
is_db_unique_violation e = elim (source_sqlx e) [
  | none ↦ false
  | some s ↦ Sqlx.is_unique_violation s
]

-- `impl Display`
unfoldable pub display : DbosError → String
unfolding as_i32 same_code
display e =
    if same_code e.code DbosErrorCode.unspecified
    then e.message
    else format ("DBOS Error " ∷ decimal (as_i32 e.code) ∷ ": " ∷ e.message ∷ [])

unfoldable pub conflicting_id : String → DbosError
unfolding new_with
conflicting_id id =
    new_with DbosErrorCode.conflicting_id (format ("Conflicting workflow ID " ∷ id ∷ []))
      (record no_context { workflow_id = some id })

unfoldable pub initialization : String → DbosError
unfolding new
initialization message =
    new DbosErrorCode.initialization (format ("Error initializing DBOS Transact: " ∷ message ∷ []))

unfoldable pub non_existent_workflow : String → DbosError
unfolding new_with
non_existent_workflow id =
    new_with DbosErrorCode.non_existent_workflow
      (format ("workflow " ∷ id ∷ " does not exist" ∷ []))
      (record no_context { destination_id = some id })

-- An empty `detail` leaves its suffix out.
unfoldable pub conflicting_workflow : String → String → DbosError
unfolding new_with
conflicting_workflow id detail =
    let message = format ("Conflicting workflow invocation with the same ID (" ∷ id ∷ ")" ∷ []) in
    new_with DbosErrorCode.conflicting_workflow
      (if detail == "" then message else format (message ∷ ": " ∷ detail ∷ []))
      (record no_context { workflow_id = some id })

unfoldable pub workflow_cancelled : String → DbosError
unfolding new
workflow_cancelled id =
    new DbosErrorCode.workflow_cancelled (format ("Workflow " ∷ id ∷ " was cancelled" ∷ []))

unfoldable pub unexpected_step : String → ℕ → String → String → DbosError
unfolding new_with
unexpected_step id step_id expected recorded =
    new_with DbosErrorCode.unexpected_step
      (format (
        "During execution of workflow "
        ∷ id
        ∷ " step "
        ∷ decimal step_id
        ∷ ", function "
        ∷ recorded
        ∷ " was recorded when "
        ∷ expected
        ∷ " was expected. Check that your workflow is deterministic."
        ∷ []))
      (record no_context {
        workflow_id = some id;
        step_id = some step_id;
        expected_name = some expected;
        recorded_name = some recorded;
      })

unfoldable pub awaited_workflow_cancelled : String → DbosError
unfolding new_with
awaited_workflow_cancelled id =
    new_with DbosErrorCode.awaited_workflow_cancelled
      (format ("Awaited workflow " ∷ id ∷ " was cancelled" ∷ []))
      (record no_context { workflow_id = some id })

unfoldable pub conflicting_registration : String → DbosError
unfolding new
conflicting_registration name =
    new DbosErrorCode.conflicting_registration (format (name ∷ " is already registered" ∷ []))

unfoldable pub step_execution : String → String → String → DbosError
unfolding new_with
step_execution id step err =
    new_with DbosErrorCode.step_execution
      (format ("Step " ∷ step ∷ " in workflow " ∷ id ∷ " execution error: " ∷ err ∷ []))
      (record no_context { workflow_id = some id; step_name = some step })

unfoldable pub dead_letter_queue : String → ℤ → DbosError
unfolding new_with
dead_letter_queue id max_retries =
    new_with DbosErrorCode.dead_letter_queue
      (format (
        "Workflow "
        ∷ id
        ∷ " has been moved to the dead-letter queue after exceeding the maximum of "
        ∷ show max_retries
        ∷ " retries"
        ∷ []))
      (record no_context { workflow_id = some id; max_retries = some max_retries })

unfoldable pub max_step_retries_exceeded : String → String → ℤ → String → DbosError
unfolding new_with
max_step_retries_exceeded id step max_retries err =
    new_with DbosErrorCode.max_step_retries_exceeded
      (format (
        "Step "
        ∷ step
        ∷ " has exceeded its maximum of "
        ∷ show max_retries
        ∷ " retries: "
        ∷ err
        ∷ []))
      (record no_context {
        workflow_id = some id;
        step_name = some step;
        max_retries = some max_retries;
      })

unfoldable pub queue_deduplicated : String → String → String → DbosError
unfolding new_with
queue_deduplicated id queue dedup =
    new_with DbosErrorCode.queue_deduplicated
      (format (
        "Workflow " ∷ id ∷ " was deduplicated due to an existing workflow in queue " ∷ queue
        ∷ " with deduplication ID " ∷ dedup ∷ []))
      (record no_context {
        workflow_id = some id;
        queue_name = some queue;
        deduplication_id = some dedup;
      })

unfoldable pub other : String → DbosError
unfolding new
other message = new DbosErrorCode.unspecified message

-- `From<sqlx::Error>`
unfoldable pub from_sqlx : SqlxError → DbosError
unfolding new with_source Sqlx.message
from_sqlx e =
    with_source (new DbosErrorCode.unspecified (format ("database error: " ∷ Sqlx.message e ∷ [])))
      (sqlx e)
