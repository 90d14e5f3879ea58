-- ===== src/Error/Constructors.antt =====
-- error.rs: the constructors that the modelled operations do not use, and the conversions from the
-- errors of serde_json and base64, which are their texts.
use dbos_transact_rs.Prelude.{
  String, Option, none, some, [], ◌∷◌, ◌==◌, format, ◌&&◌, if◌then◌else◌,
}
use dbos_transact_rs.Error.Code.{DbosErrorCode}
use dbos_transact_rs.Error.DbosError.{
  DbosError, ErrorContext, no_context, opaque, new, new_with, with_source,
}

unfoldable pub workflow_unexpected_result_type : String → String → String → DbosError
unfolding new_with
workflow_unexpected_result_type id expected actual =
    new_with DbosErrorCode.workflow_unexpected_type
      (format (
        "Workflow " ∷ id ∷ " returned unexpected result type: expected " ∷ expected ∷ ", got "
        ∷ actual ∷ []))
      (record no_context { workflow_id = some id })

unfoldable pub workflow_unexpected_input_type : String → String → String → DbosError
unfolding new
workflow_unexpected_input_type name expected actual = new DbosErrorCode.workflow_unexpected_type (
    format (
      "Workflow " ∷ name ∷ " received unexpected input type: expected " ∷ expected ∷ ", got "
      ∷ actual ∷ []))

unfoldable pub workflow_execution : String → String → DbosError
unfolding new_with
workflow_execution id err =
    new_with DbosErrorCode.workflow_execution
      (format ("Workflow " ∷ id ∷ " execution error: " ∷ err ∷ []))
      (record no_context { workflow_id = some id })

unfoldable pub awaited_max_step_retries : String → DbosError
unfolding new_with
awaited_max_step_retries id =
    new_with DbosErrorCode.max_step_retries_exceeded
      (format ("Awaited workflow " ∷ id ∷ " has exceeded the maximum number of step retries" ∷ []))
      (record no_context { workflow_id = some id })

unfoldable pub patching_not_enabled : DbosError
unfolding new
patching_not_enabled = new DbosErrorCode.patching_not_enabled (
    format (
      "Patching system is not enabled. Set EnablePatching to true in the DBOS context "
      ∷ "configuration to use Patch and DeprecatePatch" ∷ []))

unfoldable pub no_application_versions : DbosError
unfolding new
no_application_versions =
    new DbosErrorCode.no_application_versions "No application versions are registered"

-- A part that is left out where its text is empty.
abbrev pub suffix : String → String → String
suffix before s = if s == "" then "" else format (before ∷ s ∷ [])

abbrev pub non_empty : String → Option String
non_empty s = if s == "" then none else some s

-- The context is there only if one of its fields was written.
unfoldable pub timeout_context : String → String → Option ErrorContext
timeout_context id step =
    if id == "" && step == ""
    then none
    else some (record no_context { workflow_id = non_empty id; step_name = non_empty step })

unfoldable pub timeout : String → String → String → DbosError
timeout id step message = record {
  code = DbosErrorCode.timeout;
  message = format (
      (if step == "" then "Operation timed out" else format ("Step " ∷ step ∷ " timed out" ∷ []))
      ∷ suffix " in workflow " id
      ∷ suffix ": " message
      ∷ []);
  context = timeout_context id step;
  source = none;
}

unfoldable pub from_serde_json : String → DbosError
unfolding new with_source
from_serde_json text =
    with_source (new DbosErrorCode.unspecified (format ("serialization error: " ∷ text ∷ [])))
      (opaque text)

unfoldable pub from_base64 : String → DbosError
unfolding new with_source
from_base64 text =
    with_source (new DbosErrorCode.unspecified (format ("base64 decode error: " ∷ text ∷ [])))
      (opaque text)
