-- ===== src/Tests/Scheduler.antt =====
-- A schedule that ticks every hundred units of time.
use dbos_transact_rs.Prelude.{
  ℕ, ◌+◌, ◌<◌, String, ◌≡◌, refl, arith, ◌⊎◌, inl, inr, Option, some, [], ◌∷◌, find,
}
use dbos_transact_rs.Prelude.Int.{pos}
use dbos_transact_rs.Prelude.Chars.{is_white}
use dbos_transact_rs.Exec.{ok}
use dbos_transact_rs.Db.Tables
use dbos_transact_rs.Serialize.Value.{Value, number, integer, canonical}
use dbos_transact_rs.Serialize.Serde.{Serial}
use dbos_transact_rs.Serialize.Input.{args_value, encode_input}
use dbos_transact_rs.Serialize.InputRoundTrip.{envelope_of}
use dbos_transact_rs.Runtime.Workflow.{owned, polling}
use dbos_transact_rs.Runtime.Scheduler.{
  Draw, ScheduledWorkflowInput, count_words, normalize_cron, fire, run_ticks,
}
use dbos_transact_rs.Runtime.Scheduler.Ticks.{IsIncreasing, fire_once, run_ticks-IsIncreasing}
use dbos_transact_rs.Tests.Serialize.Machine.{print}
use dbos_transact_rs.Tests.Serialize.Instance.{machine, inr_value}
use dbos_transact_rs.Tests.Status.{different}
use dbos_transact_rs.Tests.Workflow.{entry, executor, remote, no_text}

value_of_tick : ScheduledWorkflowInput → String ⊎ Value
value_of_tick x = inr (number (integer (pos x.scheduled_time)))

tick_of_value : Value → String ⊎ ScheduledWorkflowInput
tick_of_value (number (integer (pos n))) = inr (record { scheduled_time = n })
tick_of_value v = inl "expected a time"

value_of_tick-canonical :
    (x : ScheduledWorkflowInput) (v : Value) → value_of_tick x ≡ inr v → canonical v ≡ v
unfolding value_of_tick canonical
value_of_tick-canonical x v h = rw (← inr_value h)

tick_of_value-value_of_tick :
    (x : ScheduledWorkflowInput) (v : Value) → value_of_tick x ≡ inr v → tick_of_value v ≡ inr x
unfolding value_of_tick tick_of_value
tick_of_value-value_of_tick x v h = rw (← inr_value h)

abbrev tick_serial : Serial ScheduledWorkflowInput
tick_serial = record {
  to_value = value_of_tick;
  from_value = tick_of_value;
  to_value-canonical = value_of_tick-canonical;
  from_value-to_value = tick_of_value-value_of_tick;
}

abbrev time_text : ℕ → String
time_text t = "2026-01-01T00:00:00Z"

abbrev hourly : ℕ → Option ℕ
hourly t = some (t + 100)

abbrev here_draw : Draw
here_draw = record { now = 100; uuid = "u1"; owner = "x1" }

abbrev there_draw : Draw
there_draw = record { now = 101; uuid = "u2"; owner = "x2" }

five_fields : normalize_cron " 0 12  * * 1 " ≡ "0  0 12  * * 1 "
unfolding normalize_cron count_words is_white
five_fields = refl

fire_once_example :
    ((fire machine tick_serial time_text no_text executor "report" 100 here_draw Tables.empty).0
      ≡ some (ok (owned "report-2026-01-01T00:00:00Z")))
    × ((fire machine tick_serial time_text no_text remote "report" 100 there_draw
          (fire machine tick_serial time_text no_text executor "report" 100 here_draw
            Tables.empty).1).0
        ≡ some (ok (polling "report-2026-01-01T00:00:00Z")))
unfolding find encode_input value_of_tick
fire_once_example =
    fire_once machine tick_serial time_text no_text executor remote entry "report"
      (print (args_value (envelope_of (number (integer (pos 100)))))) 100 here_draw there_draw
      Tables.empty refl refl refl refl (different "x1" "x2" refl)

hourly_later : (t u : ℕ) → hourly t ≡ some u → t < u
hourly_later t u h = ground (arith, h)

run_ticks-IsIncreasing_example :
    IsIncreasing 0
      (run_ticks machine tick_serial time_text no_text executor hourly "report"
        (here_draw ∷ there_draw ∷ [])
        0
        Tables.empty).0
run_ticks-IsIncreasing_example =
    run_ticks-IsIncreasing machine tick_serial time_text no_text executor hourly "report"
      (here_draw ∷ there_draw ∷ []) 0 Tables.empty hourly_later
