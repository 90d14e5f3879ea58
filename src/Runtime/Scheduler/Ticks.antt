-- ===== src/Runtime/Scheduler/Ticks.antt =====
-- A tick that several executors fire, and the ticks of one scheduler.
use dbos_transact_rs.Prelude.{
  ℕ, ◌<◌, Option-cases, inl, inr, String, ◌≡◌, ◌≢◌, refl, ap, Option, none, some, List, [], ◌∷◌,
}
use dbos_transact_rs.Exec.{Result, ok}
use dbos_transact_rs.Db.Tables.{Db}
use dbos_transact_rs.Db.View.{row_of}
use dbos_transact_rs.Serialize.Codec.{portable_name}
use dbos_transact_rs.Serialize.Serde.{Serde, Serial}
use dbos_transact_rs.Serialize.Formats.{portable}
use dbos_transact_rs.Serialize.Input.{encode_input}
use dbos_transact_rs.Runtime.Workflow.{RegistryEntry, Executor, Handle, owned, polling}
use dbos_transact_rs.Runtime.Workflow.Start.{start_workflow_once}
use dbos_transact_rs.Runtime.Scheduler.{
  Draw, ScheduledWorkflowInput, tick_id, tick_options, fire, run_ticks,
}

-- Two executors that register the scheduled workflow in the same way fire the same tick, which none
-- has fired before and whose input encodes. The first runs the body; the second gets a handle that
-- polls the first's row, so that one run happens for the tick.
pub fire_once :
    (J : Serde) (C : Serial ScheduledWorkflowInput) (rfc3339 : ℕ → String)
    (roles_text : List String → Option String) (x x' : Executor) (entry : RegistryEntry)
    (name encoded : String) (tick : ℕ) (d d' : Draw) (db : Db)
    → x.registry name ≡ some entry
    → x'.registry name ≡ some entry
    → encode_input J C (record { scheduled_time = tick }) portable ≡ ok encoded
    → row_of (tick_id rfc3339 name tick) db ≡ none
    → d.owner ≢ d'.owner
    → let first : Option (Result Handle) × Db = fire J C rfc3339 roles_text x name tick d db in
      (first.0 ≡ some (ok (owned (tick_id rfc3339 name tick))))
      × ((fire J C rfc3339 roles_text x' name tick d' first.1).0
          ≡ some (ok (polling (tick_id rfc3339 name tick))))
unfolding fire
fire_once J C rfc3339 roles_text x x' entry name encoded tick d d' db registered registered' en
      absent ne =
    let (owns, polls) =
      start_workflow_once roles_text x x' entry d.now d'.now (tick_id rfc3339 name tick) d.uuid
        d'.uuid d.owner d'.owner name portable_name portable_name (some encoded) (some encoded)
        (tick_options (tick_id rfc3339 name tick)) (tick_options (tick_id rfc3339 name tick)) db
        registered registered' refl refl absent ne in
    rw en (ap some owns, ap some polls)

-- Each tick is later than the one before, the first than `last`.
pub data IsIncreasing : ℕ → List ℕ → Type 0 where
  done : {last : ℕ} → IsIncreasing last []
  later :
      {last tick : ℕ} {ticks : List ℕ}
      → last < tick
      → IsIncreasing tick ticks
      → IsIncreasing last (tick ∷ ticks)

-- If the schedule gives ticks after the time that it is asked for, the loop fires each tick after
-- the one before it, and so no tick twice.
pub run_ticks-IsIncreasing :
    (J : Serde) (C : Serial ScheduledWorkflowInput) (rfc3339 : ℕ → String)
    (roles_text : List String → Option String) (x : Executor) (next : ℕ → Option ℕ) (name : String)
    (ds : List Draw) (last : ℕ) (db : Db)
    → ((t u : ℕ) → next t ≡ some u → t < u)
    → IsIncreasing last (run_ticks J C rfc3339 roles_text x next name ds last db).0
unfolding run_ticks
run_ticks-IsIncreasing J C rfc3339 roles_text x next name [] last db after = done
run_ticks-IsIncreasing J C rfc3339 roles_text x next name (d ∷ ds) last db after =
    elim (Option-cases (next last)) [
      | inl none_left ↦ rw (none_left, run_ticks) done
      | inr (tick, found) ↦
          rw (found, run_ticks)
            (later (after last tick found) (
              run_ticks-IsIncreasing J C rfc3339 roles_text x next name ds tick
                (fire J C rfc3339 roles_text x name tick d db).1 after))
    ]
