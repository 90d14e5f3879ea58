-- ===== src/Runtime/Context/Replay.antt =====
-- A step runs once: its first run records the outcome, and a later run at the same step id reads it
-- back and leaves the world alone.
use dbos_transact_rs.Prelude.{ℕ, suc, String, ◌≡◌, refl, false, none, some, insert}
use dbos_transact_rs.Error.DbosError.{display, other}
use dbos_transact_rs.Exec.{Result, ok, err, Exec}
use dbos_transact_rs.Db.Tables.{OperationRow}
use dbos_transact_rs.Db.Steps.{operation_of, operation_row}
use dbos_transact_rs.Db.Steps.Laws.{IsLive, check-fresh, check-recorded, record-fresh, recorded}
use dbos_transact_rs.Serialize.Codec.{Codec, portable_name}
use dbos_transact_rs.Runtime.Session.{Session, next_step_id, with_next}
use dbos_transact_rs.Runtime.Context.{
  replayed, replayed_option, replay_step, record_step, run_and_record, replay_or_run, run_step,
}

-- A value that this program returns from a step can be encoded.
abbrev pub Encodes : {R : Type 0} → Codec R → Type 0
Encodes {R} codec = (v : R) → (s : String) × (codec.encode v ≡ ok s)

-- What a replay returns for a result: a value is itself, an error keeps its text.
abbrev pub replay_of : {R : Type 0} → Result R → Result R
replay_of (ok v) = ok v
replay_of (err e) = err (other (display e))

module _ {R : Type 0} (codec : Codec R) (total : Encodes codec) where
  -- The row that a result is recorded in.
  unfoldable pub result_row : ℕ → String → ℕ → String → Result R → OperationRow
  unfolding operation_row
  result_row now id step name (ok v) =
      operation_row now id step name (some (total v).0) none none (some portable_name)
  result_row now id step name (err e) =
      operation_row now id step name none (some (codec.encode_error (display e))) none
        (some portable_name)

  replayed_option-result_row :
      (now : ℕ) (id : String) (step : ℕ) (name : String) (r : Result R)
      → replayed_option codec (some (recorded (result_row now id step name r)))
        ≡ ok (some (replay_of r))
  unfolding replayed_option replayed result_row
  replayed_option-result_row now id step name (ok v) =
      rw (codec.decode-encode v (total v).0 (total v).1)
  replayed_option-result_row now id step name (err e) =
      rw (codec.decode_error-encode_error (display e))

  name-result_row :
      (now : ℕ) (id : String) (step : ℕ) (name : String) (r : Result R)
      → (result_row now id step name r).function_name ≡ name
  unfolding result_row
  name-result_row now id step name (ok v) = refl
  name-result_row now id step name (err e) = refl

module _ {W R : Type 0} (codec : Codec R) (total : Encodes codec) where
  -- The session after a step that ran and was recorded.
  abbrev pub after_run : ℕ → String → Session W → Result R × W → Session W
  after_run now name s (r, w') = record {
    state = record (s.state) { next_step = suc s.state.next_step };
    db = record (s.db) {
      operation_outputs =
          insert (result_row codec total now s.state.workflow_id s.state.next_step name r)
            s.db.operation_outputs;
    };
    world = w';
  }

  record_step-fresh :
      (now : ℕ) (name : String) (r : Result R) (s : Session W) (step : ℕ)
      → IsLive s.state.workflow_id s.db
      → operation_of s.state.workflow_id step s.db ≡ none
      → record_step codec now step name r s ≡ (
        ok tt,
        record s {
          db = record (s.db) {
            operation_outputs =
                insert
                  (result_row codec total now s.state.workflow_id step name r)
                  s.db.operation_outputs;
          };
        },
      )
  unfolding record_step result_row
  record_step-fresh now name (ok v) s step live h = rw ((total v).1) (
      rw (
        record-fresh now s.state.workflow_id step name (some (total v).0) none none
          (some portable_name) s.db live h))
  record_step-fresh now name (err e) s step live h = rw (
      record-fresh now s.state.workflow_id step name none (some (codec.encode_error (display e)))
        none (some portable_name) s.db live h)

  -- The first run of a step: the body runs once and its result is returned and recorded.
  pub run_step-fresh :
      (now : ℕ) (name : String) (body : Exec W R) (s : Session W)
      → IsLive s.state.workflow_id s.db
      → operation_of s.state.workflow_id s.state.next_step s.db ≡ none
      → run_step codec now false name body s
        ≡ ((body s.world).0, after_run now name s (body s.world))
  unfolding run_step next_step_id replay_step replayed_option replay_or_run run_and_record
  run_step-fresh now name body s live h =
      rw (check-fresh s.state.workflow_id s.state.next_step name s.db live h) (
        rw (
          record_step-fresh now name (body s.world).0
            (record s {
              state = record (s.state) { next_step = suc s.state.next_step };
              world = (body s.world).1;
            })
            s.state.next_step live h))

  -- A later run at the same step: the recorded result, with nothing done.
  pub run_step-replays :
      (now then : ℕ) (name : String) (body : Exec W R) (s : Session W) (r : Result R)
      → IsLive s.state.workflow_id s.db
      → operation_of s.state.workflow_id s.state.next_step s.db
        ≡ some (result_row codec total then s.state.workflow_id s.state.next_step name r)
      → run_step codec now false name body s ≡ (replay_of r, with_next (suc s.state.next_step) s)
  unfolding run_step next_step_id replay_step replay_or_run
  run_step-replays now then name body s r live h =
      rw
        (check-recorded s.state.workflow_id s.state.next_step name s.db live _ h
          (name-result_row codec total then s.state.workflow_id s.state.next_step name r))
        (rw (
          replayed_option-result_row codec total then s.state.workflow_id s.state.next_step name r))
