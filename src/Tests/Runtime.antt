-- ===== src/Tests/Runtime.antt =====
-- A workflow of two steps that count in the world, run, crashed and recovered.
use dbos_transact_rs.Prelude.{
  ℕ, ◌+◌, String, ◌≡◌, refl, false, none, some, [], ◌∷◌, arith, find, insert,
}
use dbos_transact_rs.Prelude.Int.{pos}
use dbos_transact_rs.Error.Code.{same_code, as_i32}
use dbos_transact_rs.Error.DbosError.{other, new, display, max_step_retries_exceeded}
use dbos_transact_rs.Exec.{Result, ok, err, Exec}
use dbos_transact_rs.Db.WorkflowStatusType.{pending}
use dbos_transact_rs.Db.Steps.{
  operation_row, record_operation_result, map_insert_error, insert_operation,
  check_operation_execution, guard_status, guard_name,
}
use dbos_transact_rs.Db.Steps.Laws.{IsLive}
use dbos_transact_rs.Runtime.Session.{Session, with_next, next_step_id}
use dbos_transact_rs.Runtime.Step.{execute_step_with_retry, join_lines}
use dbos_transact_rs.Runtime.Step.Attempts.{execute_step_with_retry-attempts}
use dbos_transact_rs.Runtime.Context.{
  run_step, replay_step, replayed_option, replay_or_run, run_and_record, record_step,
}
use dbos_transact_rs.Runtime.Context.Replay.{result_row, run_step-replays}
use dbos_transact_rs.Runtime.Program.{
  Program, Outcome, return, step, value, failed, run, crash_after,
}
use dbos_transact_rs.Runtime.Program.Recovery.{Ready, recovery_exact}
use dbos_transact_rs.Tests.Fixtures.{plain_row, db_of}
use dbos_transact_rs.Tests.Codecs.{text_codec, text_codec-Encodes}

abbrev authorize : ℕ → Result String × ℕ
authorize n = (ok "authorized", n + 1)

abbrev capture : ℕ → Result String × ℕ
capture n = (err (other "card refused"), n + 10)

-- The result is the text that the second step showed.
abbrev last_text : Outcome String → Program ℕ String
last_text (value s) = return (ok s)
last_text (failed s) = return (ok s)

abbrev checkout : Program ℕ String
checkout = step "authorize" authorize (λ _. step "capture" capture last_text)

abbrev pub start : Session ℕ
start = record {
  state = record {
    workflow_id = "w";
    next_step = 0;
    auth = record { user = none; role = none; roles = [] };
  };
  db = db_of (plain_row "w" pending ∷ []);
  world = 0;
}

abbrev clock : ℕ → ℕ
clock n = 1000 + n

pub start-IsLive : IsLive "w" start.db
start-IsLive = record {
  row = plain_row "w" pending;
  present = unfold find in refl;
  not_cancelled = refl;
}

start-Ready : Ready start
start-Ready = record { live = start-IsLive; unrecorded = λ m le. unfold find in refl }

recovery_exact_example :
    run text_codec clock checkout (with_next 0 (crash_after text_codec clock 1 checkout start))
    ≡ run text_codec clock checkout start
recovery_exact_example =
    recovery_exact text_codec text_codec-Encodes clock 1 checkout start start-Ready

-- Both bodies have acted once, also after the crash.
checkout_world : (run text_codec clock checkout start).1.world ≡ 11
unfolding run run_step next_step_id replay_step replayed_option replay_or_run run_and_record
    check_operation_execution guard_status guard_name record_step find record_operation_result
    map_insert_error insert_operation operation_row insert
checkout_world = refl

abbrev first_done : Session ℕ
first_done = record start {
  db = record (start.db) {
    operation_outputs =
        operation_row 1000 "w" 0 "authorize" (some "authorized") none none (some "portable_json")
        ∷ [];
  };
}

run_step-replays_example :
    run_step text_codec 5 false "authorize" authorize first_done
    ≡ (ok "authorized", with_next 1 first_done)
unfolding find operation_row result_row text_codec-Encodes
run_step-replays_example =
    run_step-replays text_codec text_codec-Encodes 5 1000 "authorize" authorize first_done
      (ok "authorized")
      (record { row = plain_row "w" pending; present = refl; not_cancelled = refl }) refl

-- A body that fails, whatever the world is, and counts its attempts.
abbrev failing : Exec ℕ String
failing n = (err (other "boom"), n + 1)

execute_step_with_retry-attempts_example : execute_step_with_retry 2 "capture" "w" failing 0 ≡ (
  err (
      max_step_retries_exceeded "w" "capture" (pos 2) (join_lines ("boom" ∷ "boom" ∷ "boom" ∷ []))),
  3,
)
unfolding display other new same_code as_i32
execute_step_with_retry-attempts_example =
    execute_step_with_retry-attempts 2 "capture" "w" failing 0 (omega arith)
