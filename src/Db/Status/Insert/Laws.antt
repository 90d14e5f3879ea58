-- ===== src/Db/Status/Insert/Laws.antt =====
-- What `insert_workflow_status` does to the table, on every branch.
use dbos_transact_rs.Prelude.{
  String, ◌≡◌, ◌≢◌, refl, Bool, true, false, Option, none, some, arith, eq_iff, find, update,
  find-insert, find-holds, ◌∙◌, Option-cases, if◌then◌else◌, ◌&&◌,
}
use mathlib.Core.Option
use dbos_transact_rs.Prelude.Int.{ℤ}
use dbos_transact_rs.Error.DbosError.{DbosError}
use dbos_transact_rs.Exec.{Result, ok, err, is_ok, write, lift}
use dbos_transact_rs.Exec.Relates.{Relates, Relates-pure, Relates-lift, Relates-bind}
use dbos_transact_rs.Db.WorkflowStatusType.{pending, max_recovery_attempts_exceeded, same_status}
use dbos_transact_rs.Db.Row.{WorkflowRow, has_id}
use dbos_transact_rs.Db.Tables.{Db}
use dbos_transact_rs.Db.View.{row_of, row_of-update, row_of-update_ne, has_id_apart, Frame}
use dbos_transact_rs.Db.Status.Insert.{
  InsertWorkflowInput, InsertResult, fresh_row, touch, bury, bury_if, is_pending_id, upsert,
  upsert_found, check_conflict, is_dead_letter, insert_workflow_status,
}

-- The table after the conflict update.
abbrev pub touched : InsertWorkflowInput → Db → Db
touched i db = record db {
  workflow_status = update (has_id i.workflow_id) (touch i) db.workflow_status;
}

abbrev pub result_of : WorkflowRow → Bool → InsertResult
result_of r dead = record {
  recovery_attempts = r.recovery_attempts;
  status = r.status;
  name = r.name;
  queue_name = r.queue_name;
  owner_xid = r.owner_xid;
  dlq_triggered = dead;
}

module _ (i : InsertWorkflowInput) where
  upsert_found-frame :
      (id : String) (db : Db) (o : Option WorkflowRow)
      → i.workflow_id ≢ id
      → row_of id (upsert_found i o db).1 ≡ row_of id db
  unfolding upsert_found fresh_row touch
  upsert_found-frame id db none ne = ground (
    arith,
    ne,
    eq_iff i.workflow_id id,
    find-insert (has_id id) (fresh_row i) db.workflow_status,
    Option-cases (row_of id db),
  )
  upsert_found-frame id db (some r) ne =
      row_of-update_ne _ (touch i) (λ r. refl) id (has_id_apart i.workflow_id id ne)
        db.workflow_status

  upsert-frame : (id : String) → i.workflow_id ≢ id → Relates (Frame id) (upsert i)
  unfolding upsert
  upsert-frame id ne = record {
    at = λ db. upsert_found-frame id db (find (has_id i.workflow_id) db.workflow_status) ne;
  }

bury_if-frame : (k id : String) (b : Bool) → k ≢ id → Relates (Frame id) (write (bury_if b k))
unfolding bury_if bury
bury_if-frame k id true ne = record {
  at = λ db.
      row_of-update_ne (is_pending_id k) bury (λ r. refl) id
        (λ r h. ground (arith, has_id_apart k id ne r h)) db.workflow_status;
}
bury_if-frame k id false ne = record { at = λ db. refl }

-- An insert leaves every row of another workflow as it was, whether it succeeds or fails.
pub insert_workflow_status-frame :
    (i : InsertWorkflowInput) (max_retries : ℤ) (id : String) (db : Db)
    → i.workflow_id ≢ id
    → row_of id (insert_workflow_status i max_retries db).1 ≡ row_of id db
unfolding insert_workflow_status
insert_workflow_status-frame i m id db ne =
    (Relates-bind (Frame id) (upsert i) _ (upsert-frame i id ne) λ row.
        Relates-bind (Frame id) (lift (check_conflict i row)) _ (Relates-lift (Frame id) _) λ _.
          Relates-bind (Frame id) (write (bury_if (is_dead_letter row m) i.workflow_id)) _
            (bury_if-frame i.workflow_id id _ ne)
            λ _. Relates-pure (Frame id) (result_of row (is_dead_letter row m))).at
      db

module _ (i : InsertWorkflowInput) (max_retries : ℤ) (db : Db) (r : WorkflowRow)
    (found : row_of i.workflow_id db ≡ some r) where
  pub insert-conflict :
      (e : DbosError)
      → check_conflict i (touch i r) ≡ err e
      → insert_workflow_status i max_retries db ≡ (err e, touched i db)
  unfolding insert_workflow_status upsert upsert_found
  insert-conflict e c = rw (found, upsert) (rw c)

  pub insert-accepted :
      check_conflict i (touch i r) ≡ ok tt
      → insert_workflow_status i max_retries db ≡ (
        ok (result_of (touch i r) (is_dead_letter (touch i r) max_retries)),
        bury_if (is_dead_letter (touch i r) max_retries) i.workflow_id (touched i db),
      )
  unfolding insert_workflow_status upsert upsert_found
  insert-accepted c = rw (found, upsert) (rw c)

  pub row_of-touched : row_of i.workflow_id (touched i db) ≡ some (touch i r)
  unfolding touch
  row_of-touched =
      row_of-update (has_id i.workflow_id) (touch i) (λ s. refl) i.workflow_id db.workflow_status
      ∙ rw found (ground (arith, find-holds (has_id i.workflow_id) db.workflow_status r found))

  pub row_of-bury_if :
      (dead : Bool)
      → row_of i.workflow_id (bury_if dead i.workflow_id (touched i db))
        ≡ some (if dead && same_status r.status pending then bury (touch i r) else touch i r)
  unfolding bury_if bury touch
  row_of-bury_if false = row_of-touched
  row_of-bury_if true =
      row_of-update (is_pending_id i.workflow_id) bury (λ s. refl) i.workflow_id
        (touched i db).workflow_status
      ∙ rw row_of-touched
          (ground (arith, find-holds (has_id i.workflow_id) db.workflow_status r found))

  -- An insert over an existing row changes its status in one case only: where neither the name nor
  -- the queue conflicts, the attempts exceed the limit and the row is PENDING, it is buried.
  pub insert_workflow_status-status :
      Option.map (λ t. t.status) (row_of i.workflow_id (insert_workflow_status i max_retries db).1)
      ≡ some (
          if is_ok (check_conflict i (touch i r))
            && is_dead_letter (touch i r) max_retries
            && same_status r.status pending
          then max_recovery_attempts_exceeded
          else r.status)
  unfolding bury touch
  insert_workflow_status-status = split (check_conflict i (touch i r)) refl
    where
      split :
          (c : Result (Unit {0}))
          → check_conflict i (touch i r) ≡ c
          → Option.map
              (λ t. t.status)
              (row_of i.workflow_id (insert_workflow_status i max_retries db).1)
            ≡ some (
                if is_ok c && is_dead_letter (touch i r) max_retries && same_status r.status pending
                then max_recovery_attempts_exceeded
                else r.status)
      split (ok _) e =
          rw (insert-accepted e)
            (rw (row_of-bury_if (is_dead_letter (touch i r) max_retries)) (ground arith))
      split (err x) e = rw (insert-conflict x e) (rw row_of-touched refl)
