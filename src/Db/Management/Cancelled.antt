-- ===== src/Db/Management/Cancelled.antt =====
-- What a cancellation and a resumption do to a workflow, and that a cancelled workflow stops.
use dbos_transact_rs.Prelude.{
  ℕ, String, ◌≡◌, refl, ◌∙◌, true, false, not, ◌&&◌, ◌||◌, Option, none, some, List, arith, eq_iff,
  find-holds, any_eq, if◌then◌else◌,
}
use dbos_transact_rs.Error.DbosError.{workflow_cancelled}
use dbos_transact_rs.Exec.{err}
use dbos_transact_rs.Db.WorkflowStatusType.{
  WorkflowStatusType, success, error, cancelled, same_status,
}
use dbos_transact_rs.Db.Row.{WorkflowRow, has_id}
use dbos_transact_rs.Db.Tables.{Db}
use dbos_transact_rs.Db.View.{row_of, row_of-update}
use dbos_transact_rs.Db.Status.Outcome.{update_workflow_outcome, cancelled_wins}
use dbos_transact_rs.Db.Steps.{check_operation_execution, guard_status}
use dbos_transact_rs.Db.Management.Retire.{
  may_cancel, cancel, cancel_workflows, may_resume, resume, resume_workflows,
}

module _ (now : ℕ) (ids : List String) (id : String) (db : Db) (r : WorkflowRow)
    (found : row_of id db ≡ some r) where
  at_id : r.workflow_uuid ≡ id
  at_id =
      ground (arith, find-holds (has_id id) db.workflow_status r found, eq_iff r.workflow_uuid id)

  -- The row after a cancellation: updated if it is named and has not ended.
  cancel_workflows-cancel :
      row_of id (cancel_workflows now ids db).1
      ≡ some (
          if any_eq ids id
            && not (
                same_status r.status success
                || same_status r.status error
                || same_status r.status cancelled)
          then cancel now r
          else r)
  unfolding cancel_workflows cancel
  cancel_workflows-cancel =
      row_of-update (may_cancel ids) (cancel now) (λ x. refl) id db.workflow_status
      ∙ rw found (unfold may_cancel in rw at_id refl)

  -- A cancellation moves a workflow that it names to CANCELLED, completed now, with no queue, no
  -- deduplication id and no start, unless it has SUCCESS, ERROR or CANCELLED. The other columns, and
  -- the rows of every other workflow, stay as they were.
  pub cancel_workflows-row :
      row_of id (cancel_workflows now ids db).1
      ≡ some (
          if any_eq ids id
            && not (
                same_status r.status success
                || same_status r.status error
                || same_status r.status cancelled)
          then record r {
            status = cancelled;
            updated_at = now;
            completed_at = some now;
            started_at_epoch_ms = none;
            queue_name = none;
            deduplication_id = none;
          }
          else r)
  unfolding cancel
  cancel_workflows-row = cancel_workflows-cancel

  -- A resumption puts a workflow that it names on the queue, ENQUEUED and with no attempts, unless
  -- it has succeeded or failed; every other workflow keeps its row.
  pub resume_workflows-row :
      (queue : String)
      → row_of id (resume_workflows now ids queue db).1
        ≡ some (
            if any_eq ids id && not (same_status r.status success || same_status r.status error)
            then resume now queue r
            else r)
  unfolding resume_workflows resume
  resume_workflows-row queue =
      row_of-update (may_resume ids) (resume now queue) (λ x. refl) id db.workflow_status
      ∙ rw found (unfold may_resume in rw at_id refl)

-- After the cancellation of a workflow that has not succeeded or failed: its next step, whatever it
-- is, fails with "was cancelled", and a SUCCESS or ERROR that its executor still reports leaves its
-- row as it is.
pub cancel_stops :
    (now later : ℕ) (ids : List String) (id name : String) (step : ℕ) (new : WorkflowStatusType)
    (output failure : Option String) (db : Db) (r : WorkflowRow)
    → row_of id db ≡ some r
    → any_eq ids id ≡ true
    → (same_status r.status success || same_status r.status error) ≡ false
    → (same_status new success || same_status new error) ≡ true
    → (check_operation_execution id step name (cancel_workflows now ids db).1
        ≡ (err (workflow_cancelled id), (cancel_workflows now ids db).1))
      × (row_of id
            (update_workflow_outcome later id new output failure (cancel_workflows now ids db).1).1
          ≡ row_of id (cancel_workflows now ids db).1)
cancel_stops now later ids id name step new output failure db r found named going reported =
    let (x, p, c) = after_cancel in
    (
      unfold check_operation_execution guard_status in rw p (rw c refl),
      cancelled_wins later id new output failure (cancel_workflows now ids db).1 x p c reported
          ∙ rw p refl,
    )
  where
    after_cancel :
        (x : WorkflowRow) × (row_of id (cancel_workflows now ids db).1 ≡ some x)
        × (x.status ≡ cancelled)
    after_cancel = (
      if same_status r.status cancelled then r else cancel now r,
      cancel_workflows-cancel now ids id db r found ∙ ground (arith, named, going),
      unfold cancel in ground arith,
    )
