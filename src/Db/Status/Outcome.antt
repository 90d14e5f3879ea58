-- ===== src/Db/Status/Outcome.antt =====
-- db/status.rs: `update_workflow_outcome` and `get_status`.
use dbos_transact_rs.Prelude.{
  ℕ, String, ◌≡◌, ◌≢◌, refl, ◌∙◌, Bool, true, not, ◌&&◌, ◌||◌, Option, none, some, arith, update,
  find-holds, if◌then◌else◌,
}
use mathlib.Core.Option
use dbos_transact_rs.Exec.{Exec, write, query}
use dbos_transact_rs.Db.WorkflowStatusType.{
  WorkflowStatusType, success, error, cancelled, same_status,
}
use dbos_transact_rs.Db.Row.{WorkflowRow, has_id}
use dbos_transact_rs.Db.Tables.{Db}
use dbos_transact_rs.Db.View.{row_of, row_of-update, row_of-update_ne, has_id_apart}

-- NOT (status = CANCELLED AND $1 IN (SUCCESS, ERROR))
unfoldable pub may_finish : WorkflowStatusType → WorkflowRow → Bool
may_finish new r =
    not (same_status r.status cancelled && (same_status new success || same_status new error))

unfoldable pub finish :
    ℕ → WorkflowStatusType → Option String → Option String → WorkflowRow → WorkflowRow
finish now new output err r = record r {
  status = new;
  output = output;
  error = err;
  updated_at = now;
  completed_at = some now;
  deduplication_id = none;
}

unfoldable pub update_workflow_outcome :
    ℕ → String → WorkflowStatusType → Option String → Option String → Exec Db (Unit {0})
update_workflow_outcome now id new output err = write λ db. record db {
  workflow_status =
      update (λ r. has_id id r && may_finish new r) (finish now new output err) db.workflow_status;
}

unfoldable pub get_status : String → Exec Db (Option WorkflowStatusType)
get_status id = query λ db. Option.map (λ r. r.status) (row_of id db)

module _ (now : ℕ) (id : String) (new : WorkflowStatusType) (output err : Option String)
    (db : Db) where
  -- After an outcome is recorded, the row of the workflow is finished with it, unless it was
  -- CANCELLED and the outcome is SUCCESS or ERROR: then it is untouched. A row that is not there
  -- stays absent.
  pub update_workflow_outcome-row :
      row_of id (update_workflow_outcome now id new output err db).1
      ≡ Option.map (λ r. if may_finish new r then finish now new output err r else r) (row_of id db)
  unfolding update_workflow_outcome finish
  update_workflow_outcome-row =
      row_of-update (λ r. has_id id r && may_finish new r) (finish now new output err) (λ r. refl)
        id db.workflow_status
      ∙ at_row (row_of id db) refl
    where
      at_row :
          (o : Option WorkflowRow)
          → row_of id db ≡ o
          → Option.map
              (λ r. if has_id id r && may_finish new r then finish now new output err r else r)
              o
            ≡ Option.map (λ r. if may_finish new r then finish now new output err r else r) o
      at_row none e = refl
      at_row (some r) e = rw (find-holds (has_id id) db.workflow_status r e)

  -- The rows of the other workflows stay.
  pub update_workflow_outcome-frame :
      (k : String)
      → id ≢ k
      → row_of k (update_workflow_outcome now id new output err db).1 ≡ row_of k db
  unfolding update_workflow_outcome finish
  update_workflow_outcome-frame k ne =
      row_of-update_ne (λ r. has_id id r && may_finish new r) (finish now new output err)
        (λ r. refl) k (λ r h. ground (arith, has_id_apart id k ne r h)) db.workflow_status

-- A cancellation that raced with the normal end of the workflow is preserved.
pub cancelled_wins :
    (now : ℕ) (id : String) (new : WorkflowStatusType) (output err : Option String) (db : Db)
    (r : WorkflowRow)
    → row_of id db ≡ some r
    → r.status ≡ cancelled
    → (same_status new success || same_status new error) ≡ true
    → row_of id (update_workflow_outcome now id new output err db).1 ≡ some r
unfolding may_finish
cancelled_wins now id new output err db r found c s =
    update_workflow_outcome-row now id new output err db ∙ rw found (ground arith)
