-- ===== src/Runtime/Context.antt =====
-- runtime/context.rs: `run_step`, `run_step_with` and their parts. A context inside a step body
-- has `within_step`.
pub mod Replay
use dbos_transact_rs.Prelude.{ℕ, String, Bool, true, false, Option, none, some, if◌then◌else◌}
use dbos_transact_rs.Error.DbosError.{display}
use dbos_transact_rs.Exec.{Result, ok, err, Exec, pure, lift, ◌>>=◌}
use dbos_transact_rs.Db.Steps.{
  RecordedOperation, check_operation_execution, record_operation_result,
}
use dbos_transact_rs.Serialize.Codec.{Codec, portable_name}
use dbos_transact_rs.Runtime.Session.{Session, next_step_id, on_db, on_world}
use dbos_transact_rs.Runtime.Step.{execute_step_with_retry}

module _ {R : Type 0} (codec : Codec R) where
  -- A recorded error, or the decoded value; a value that does not decode fails the call.
  unfoldable pub replayed : RecordedOperation → Result (Result R)
  replayed rec = elim rec.error [
    | some text ↦ ok (err (codec.decode_error text rec.serialization))
    | none ↦ elim (codec.decode rec.output rec.serialization) [ ok v ↦ ok (ok v) | err e ↦ err e ]
  ]

  unfoldable pub replayed_option : Option RecordedOperation → Result (Option (Result R))
  replayed_option none = ok none
  replayed_option (some rec) = elim (replayed rec) [ ok r ↦ ok (some r) | err e ↦ err e ]

module _ {W R : Type 0} (codec : Codec R) where
  unfoldable pub replay_step : ℕ → String → Exec (Session W) (Option (Result R))
  replay_step step name s =
      (on_db (check_operation_execution s.state.workflow_id step name) >>= λ found.
      lift (replayed_option codec found))
        s

  unfoldable pub record_step : ℕ → ℕ → String → Result R → Exec (Session W) (Unit {0})
  record_step now step name (ok value) s =
      (lift (codec.encode value) >>= λ text. on_db (
          record_operation_result now s.state.workflow_id step name (some text) none none
            (some portable_name)))
        s
  record_step now step name (err e) s =
      on_db
        (record_operation_result now s.state.workflow_id step name none
          (some (codec.encode_error (display e))) none (some portable_name))
        s

  -- The body runs and its outcome is recorded; a record that fails replaces the outcome.
  unfoldable pub run_and_record : ℕ → ℕ → String → Exec W R → Exec (Session W) R
  run_and_record now step name body s =
      let (result, w') = body s.world in
      (record_step now step name result >>= λ _. lift result) (record s { world = w' })

  unfoldable pub replay_or_run : ℕ → ℕ → String → Exec W R → Option (Result R) → Exec (Session W) R
  replay_or_run now step name body (some r) = lift r
  replay_or_run now step name body none = run_and_record now step name body

  -- A step inside a step runs inline and takes no step id.
  unfoldable pub run_step : ℕ → Bool → String → Exec W R → Exec (Session W) R
  run_step now within_step name body = if within_step then on_world body else do
    step ← next_step_id
    replay ← replay_step step name
    replay_or_run now step name body replay

  unfoldable pub run_step_with : ℕ → Bool → String → ℕ → Exec W R → Exec (Session W) R
  run_step_with now within_step name max_retries body = if within_step then on_world body else do
    step ← next_step_id
    replay ← replay_step step name
    λ s.
        replay_or_run now step name
          (execute_step_with_retry max_retries name s.state.workflow_id body) replay s
