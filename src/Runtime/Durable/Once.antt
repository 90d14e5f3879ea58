-- ===== src/Runtime/Durable/Once.antt =====
-- A durable operation takes effect once: the effect and its record commit together, and a replay
-- does nothing.
use dbos_transact_rs.Prelude.{
  ℕ, suc, String, ◌≡◌, refl, ◌∙◌, ap, false, none, some, arith, eq_refl, find, find-insert, insert,
}
use dbos_transact_rs.Error.DbosError.{DbosError}
use dbos_transact_rs.Exec.{Result, ok, err, Exec}
use dbos_transact_rs.Db.Row.{has_id}
use dbos_transact_rs.Db.Tables.{Db, OperationRow}
use dbos_transact_rs.Db.Steps.{operation_of, is_operation, operation_row}
use dbos_transact_rs.Db.Steps.Laws.{IsLive, check-fresh, check-recorded, record-fresh}
use dbos_transact_rs.Serialize.Codec.{Codec, portable_name}
use dbos_transact_rs.Runtime.Session.{Session, with_next, next_step_id}
use dbos_transact_rs.Runtime.Durable.{durable, perform, commit_effect}

-- A database in which the workflow lives as before, with the same steps.
pub record SameSteps (db db' : Db) : Type 0 where
  pub rows : db'.workflow_status ≡ db.workflow_status
  pub steps : db'.operation_outputs ≡ db.operation_outputs

SameSteps-IsLive : (id : String) (db db' : Db) → SameSteps db db' → IsLive id db → IsLive id db'
SameSteps-IsLive id db db' same live = record {
  row = live.row;
  present = ap (find (has_id id)) same.rows ∙ live.present;
  not_cancelled = live.not_cancelled;
}

module _ {W : Type 0} (unit_codec : Codec (Unit {0})) (now : ℕ) (name unit : String) (s : Session W)
    (live : IsLive s.state.workflow_id s.db)
    (unrecorded : operation_of s.state.workflow_id s.state.next_step s.db ≡ none)
    (encoded : unit_codec.encode tt ≡ ok unit) where
  abbrev unit_row : OperationRow
  unit_row =
      operation_row now s.state.workflow_id s.state.next_step name (some unit) none none
        (some portable_name)

  -- The session after an effect that led to `db`.
  abbrev pub performed : Db → Session W
  performed db = record (with_next (suc s.state.next_step) s) {
    db = record db { operation_outputs = insert unit_row db.operation_outputs };
  }

  module _ (refusal : String) (effect : ℕ → Result (Exec Db (Unit {0}))) (run : Exec Db (Unit {0}))
      (prepared : effect s.state.next_step ≡ ok run) where
    -- An effect that succeeds is committed with its record.
    pub durable-performs :
        (db : Db)
        → run s.db ≡ (ok tt, db)
        → SameSteps s.db db
        → durable unit_codec now false name refusal effect s ≡ (ok tt, performed db)
    unfolding durable next_step_id perform commit_effect
    durable-performs db ran same =
        rw (check-fresh s.state.workflow_id s.state.next_step name s.db live unrecorded) (
          rw prepared (
            rw encoded (
              rw ran (
                rw
                  (record-fresh now s.state.workflow_id s.state.next_step name (some unit) none none
                    (some portable_name) db (SameSteps-IsLive s.state.workflow_id s.db db same live)
                    (ap (find (is_operation s.state.workflow_id s.state.next_step)) same.steps
                      ∙ unrecorded))
                  refl))))

    -- An effect that fails is rolled back, and nothing is recorded.
    pub durable-fails :
        (e : DbosError) (db : Db)
        → run s.db ≡ (err e, db)
        → durable unit_codec now false name refusal effect s
          ≡ (err e, with_next (suc s.state.next_step) s)
    unfolding durable next_step_id perform commit_effect
    durable-fails e db ran =
        rw (check-fresh s.state.workflow_id s.state.next_step name s.db live unrecorded)
          (rw prepared (rw encoded (rw ran refl)))

  -- A replay at the same step finds the record and does nothing.
  pub durable-replays :
      (now' : ℕ) (refusal : String) (effect : ℕ → Result (Exec Db (Unit {0}))) (db : Db)
      → SameSteps s.db db
      → durable unit_codec now' false name refusal effect
          (with_next s.state.next_step (performed db))
        ≡ (ok tt, performed db)
  unfolding durable next_step_id
  durable-replays now' refusal effect db same =
      rw
        (check-recorded s.state.workflow_id s.state.next_step name (performed db).db
          (record {
            row = live.row;
            present = ap (find (has_id s.state.workflow_id)) same.rows ∙ live.present;
            not_cancelled = live.not_cancelled;
          })
          unit_row found (unfold operation_row in refl))
        refl
    where
      found : operation_of s.state.workflow_id s.state.next_step (performed db).db ≡ some unit_row
      found =
          unfold operation_row in
          (find-insert (is_operation s.state.workflow_id s.state.next_step) unit_row
              db.operation_outputs
            ∙ rw
                (ap (find (is_operation s.state.workflow_id s.state.next_step)) same.steps
                  ∙ unrecorded)
                (ground (arith, eq_refl s.state.workflow_id)))
