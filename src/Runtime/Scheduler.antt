-- ===== src/Runtime/Scheduler.antt =====
-- runtime/scheduler.rs: the cron loop of one scheduled workflow. The crates cron and chrono are
-- parameters: the schedule that a spec parses to is the function from a time to its next tick, and a
-- tick has a text in RFC 3339 and a JSON value. A run is as many rounds as there are sleeps before the
-- loop is cancelled; the waits and what is logged are left out.
pub mod Ticks
use Prim.Native.String
use dbos_transact_rs.Prelude.{
  ℕ, zero, suc, ◌+◌, String, Bool, true, false, ◌⊎◌, inl, inr, Option, none, some, List, [], ◌∷◌,
  eqb, format, if◌then◌else◌,
}
use dbos_transact_rs.Prelude.Chars.{is_white}
use dbos_transact_rs.Exec.{Result, ok, err}
use dbos_transact_rs.Db.Tables.{Db}
use dbos_transact_rs.Serialize.Codec.{portable_name}
use dbos_transact_rs.Serialize.Serde.{Serde, Serial}
use dbos_transact_rs.Serialize.Formats.{portable}
use dbos_transact_rs.Serialize.Input.{encode_input}
use dbos_transact_rs.Runtime.Workflow.{WorkflowOptions, Executor, Handle, start_workflow}

-- `split_whitespace().count()`: a word ends at white space or at the end.
unfoldable pub count_words : Bool → String → ℕ
unfolding is_white
count_words true String.[] = 1
count_words false String.[] = 0
count_words inside (String.◌∷◌ c s) =
    let outside = count_words false s in
    let within = count_words true s in
    if is_white c then (if inside then suc outside else outside) else within

unfoldable pub normalize_cron : String → String
unfolding count_words
normalize_cron cron = if eqb (count_words false cron) 5 then format ("0 " ∷ cron ∷ []) else cron

-- Each tick's id, which is the same in the whole fleet.
abbrev pub tick_id : (ℕ → String) → String → ℕ → String
tick_id rfc3339 name tick = format (name ∷ "-" ∷ rfc3339 tick ∷ [])

abbrev pub tick_options : String → WorkflowOptions
tick_options id = record {
  workflow_id = some id;
  application_version = none;
  authenticated_user = none;
  assumed_role = none;
  authenticated_roles = none;
}

-- What the calls of one round draw: the clock, an id that is not used, and an owner.
pub record Draw : Type 0 where
  pub now : ℕ
  pub uuid : String
  pub owner : String

-- The input of a scheduled workflow.
pub record ScheduledWorkflowInput : Type 0 where
  pub scheduled_time : ℕ

module _ (J : Serde) (C : Serial ScheduledWorkflowInput) (rfc3339 : ℕ → String)
    (roles_text : List String → Option String) (x : Executor) where
  unfoldable pub fire_encoded : String → ℕ → Draw → Result String → Db → Option (Result Handle) × Db
  fire_encoded name tick d (err _) db = (none, db)
  fire_encoded name tick d (ok encoded) db =
      let (r, db') =
        start_workflow roles_text x d.now d.uuid d.owner name (some encoded)
          (tick_options (tick_id rfc3339 name tick)) none portable_name false db in
      (some r, db')

  -- One tick: an input that does not encode is logged, and so is a start that fails.
  unfoldable pub fire : String → ℕ → Draw → Db → Option (Result Handle) × Db
  unfolding fire_encoded
  fire name tick d db =
      fire_encoded name tick d (encode_input J C (record { scheduled_time = tick }) portable) db

  module _ (next : ℕ → Option ℕ) (name : String) where
    -- The loop from the tick `last` on, with the ticks that it fired.
    unfoldable pub run_ticks : List Draw → ℕ → Db → List ℕ × Db
    unfolding fire
    run_ticks [] last db = ([], db)
    run_ticks (d ∷ ds) last db = elim (next last) [
      | none ↦ ([], db)
      | some tick ↦
          let (ticks, db') = run_ticks ds tick (fire name tick d db).1 in (tick ∷ ticks, db')
    ]

  -- A spec that does not parse ends the scheduler.
  unfoldable pub run_scheduler :
      (String → Option (ℕ → Option ℕ)) → String → String → List Draw → ℕ → Db → List ℕ × Db
  unfolding run_ticks
  run_scheduler parse name cron ds now db = elim (parse (normalize_cron cron)) [
    | none ↦ ([], db)
    | some next ↦ run_ticks next name ds now db
  ]
