-- ===== src/Error/Code.antt =====
-- error.rs: the programmatic error codes, with the numbers of the Go reference.
use Prim.Native.Nat.{ℕ}
use mathlib.Core.Bool.{Bool}
use dbos_transact_rs.Prelude.{eqb}

pub data DbosErrorCode : Type 0 where
  unspecified conflicting_id initialization non_existent_workflow : DbosErrorCode
  conflicting_workflow workflow_cancelled unexpected_step awaited_workflow_cancelled : DbosErrorCode
  conflicting_registration workflow_unexpected_type workflow_execution : DbosErrorCode
  step_execution dead_letter_queue max_step_retries_exceeded queue_deduplicated : DbosErrorCode
  patching_not_enabled timeout no_application_versions : DbosErrorCode

unfoldable pub as_i32 : DbosErrorCode → ℕ
as_i32 unspecified = 0
as_i32 conflicting_id = 1
as_i32 initialization = 2
as_i32 non_existent_workflow = 3
as_i32 conflicting_workflow = 4
as_i32 workflow_cancelled = 5
as_i32 unexpected_step = 6
as_i32 awaited_workflow_cancelled = 7
as_i32 conflicting_registration = 8
as_i32 workflow_unexpected_type = 9
as_i32 workflow_execution = 10
as_i32 step_execution = 11
as_i32 dead_letter_queue = 12
as_i32 max_step_retries_exceeded = 13
as_i32 queue_deduplicated = 14
as_i32 patching_not_enabled = 15
as_i32 timeout = 16
as_i32 no_application_versions = 17

-- The derived `==` of the codes.
unfoldable pub same_code : DbosErrorCode → DbosErrorCode → Bool
unfolding as_i32
same_code a b = eqb (as_i32 a) (as_i32 b)
