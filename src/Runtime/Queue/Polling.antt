-- ===== src/Runtime/Queue/Polling.antt =====
-- The polling interval, over the cycles of a queue.
use dbos_transact_rs.Prelude.{
  ℕ, zero, suc, String, ◌-◌, ◌≤◌, ◌<◌, max, ◌≡◌, arith, Bool, true, false, Option, List,
}
use dbos_transact_rs.Error.DbosError.{DbosError}
use dbos_transact_rs.Exec.{Result, ok, err}
use dbos_transact_rs.Db.Row.{WorkflowRow}
use dbos_transact_rs.Db.Queue.{transition_delayed_workflows}
use dbos_transact_rs.Runtime.Workflow.{Executor}
use dbos_transact_rs.Runtime.Queue.Options.{WorkflowQueue}
use dbos_transact_rs.Runtime.Queue.Runner.{
  Runner, next_interval, run_cycle, partitions_of, poll_partitions, poll_cycle,
}

-- What the float arithmetic of durations does: doubling does not shrink, and nine tenths do not
-- grow, and shrink from ten nanoseconds on, where rounding cannot hide it.
pub record IsScaling (twice nine_tenths : ℕ → ℕ) : Type 0 where
  pub doubles : (d : ℕ) → d ≤ twice d
  pub shrinks : (d : ℕ) → nine_tenths d ≤ d
  pub strictly : (d : ℕ) → 10 ≤ d → nine_tenths d < d

abbrev pub IsInterval : WorkflowQueue → ℕ → Type 0
IsInterval q d = (q.base_polling ≤ d) × (d ≤ q.max_polling)

-- The interval after a number of cycles without contention.
unfoldable pub after_quiet : WorkflowQueue → (ℕ → ℕ) → (ℕ → ℕ) → ℕ → ℕ → ℕ
after_quiet q twice nine_tenths zero interval = interval
after_quiet q twice nine_tenths (suc n) interval =
    after_quiet q twice nine_tenths n (next_interval q twice nine_tenths false interval)

module _ (x : Executor) (q : WorkflowQueue) (twice nine_tenths : ℕ → ℕ)
    (scaling : IsScaling twice nine_tenths) where
  IsInterval-next :
      (had_backoff : Bool) (interval : ℕ)
      → IsInterval q interval
      → IsInterval q (next_interval q twice nine_tenths had_backoff interval)
  unfolding next_interval
  IsInterval-next true interval h = (omega (arith, h.0, h.1, scaling.doubles interval), omega arith)
  IsInterval-next false interval h =
      (omega arith, omega (arith, h.0, h.1, scaling.shrinks interval))

  IsInterval-poll_cycle :
      (now : ℕ) (locked : WorkflowRow → Bool) (interval : ℕ) (s : Runner)
      (r : Result (List (Option String)))
      → IsInterval q interval
      → IsInterval q (poll_cycle x q now locked twice nine_tenths interval s r).0
  unfolding poll_cycle next_interval
  IsInterval-poll_cycle now locked interval s (err e) h = IsInterval-next true interval h
  IsInterval-poll_cycle now locked interval s (ok ps) h =
      IsInterval-next (poll_partitions x q now locked ps false s).0 interval h

  -- A cycle keeps the interval between the base and the maximum of the queue, whether the polls
  -- met contention, the partitions could not be read, or all went well, if doubling does not shrink
  -- and nine tenths do not grow.
  pub run_cycle-IsInterval :
      (now : ℕ) (locked : WorkflowRow → Bool) (failure : Option DbosError) (interval : ℕ)
      (s : Runner)
      → IsInterval q interval
      → IsInterval q (run_cycle x q now locked twice nine_tenths failure interval s).0
  unfolding run_cycle
  run_cycle-IsInterval now locked failure interval s h =
      let promoted = record s { db = (transition_delayed_workflows now s.db).1 } in
      IsInterval-poll_cycle now locked interval promoted
        (partitions_of x q now locked failure promoted.db) h

  closer :
      (d nine base n : ℕ)
      → base ≤ d
      → nine ≤ d
      → (10 ≤ d → nine < d)
      → 10 ≤ base
      → d - base ≤ suc n
      → max nine base - base ≤ n
  closer d nine base n le shrinks strictly ten h = ground (arith, le, shrinks, strictly, ten, h)

  -- After enough cycles without contention the queue polls at its base interval again.
  pub after_quiet-base :
      (n interval : ℕ)
      → 10 ≤ q.base_polling
      → q.base_polling ≤ interval
      → interval - q.base_polling ≤ n
      → after_quiet q twice nine_tenths n interval ≡ q.base_polling
  unfolding after_quiet next_interval
  after_quiet-base zero interval ten le h = omega (arith, le, h)
  after_quiet-base (suc n) interval ten le h =
      after_quiet-base n (max (nine_tenths interval) q.base_polling) ten (omega arith) (
        closer interval (nine_tenths interval) q.base_polling n le (scaling.shrinks interval)
          (scaling.strictly interval) ten h)
