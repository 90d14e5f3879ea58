-- ===== src/Db/Status/Insert/DeadLetter.antt =====
-- The recovery limit: how many recoveries a workflow has before it moves to the dead-letter state.
use dbos_transact_rs.Prelude.{
  ℕ, zero, suc, ◌+◌, ◌≤◌, ◌<◌, ◌≡◌, refl, none, some, arith, eq_refl, ltb, if◌then◌else◌, ◌&&◌,
  eq_iff, ◌∙◌,
}
use dbos_transact_rs.Prelude.Int.{ℤ, pos}
use dbos_transact_rs.Exec.{ok}
use dbos_transact_rs.Db.WorkflowStatusType.{pending, max_recovery_attempts_exceeded}
use dbos_transact_rs.Db.Row.{WorkflowRow}
use dbos_transact_rs.Db.Tables.{Db}
use dbos_transact_rs.Db.View.{row_of}
use dbos_transact_rs.Db.Status.Insert.{
  InsertWorkflowInput, touch, bury, check_conflict, queue_conflict, is_dead_letter, exceeds,
  is_queued, insert_workflow_status,
}
use dbos_transact_rs.Db.Status.Insert.Laws.{insert-accepted, row_of-bury_if}

-- The input of a recovery: a direct run, which counts.
pub record IsRecovery (i : InsertWorkflowInput) : Type 0 where
  pub is_pending : i.status ≡ pending
  pub counts : i.increment ≡ 1
  pub direct : i.queue_name ≡ none

-- The row of a workflow that runs, with `a` attempts.
pub record Runs (i : InsertWorkflowInput) (a : ℕ) (r : WorkflowRow) : Type 0 where
  pub is_pending : r.status ≡ pending
  pub named : r.name ≡ i.name
  pub attempts : r.recovery_attempts ≡ a

-- `n` recoveries, one after the other.
pub recoveries : ℕ → InsertWorkflowInput → ℤ → Db → Db
recoveries zero i m db = db
recoveries (suc n) i m db = recoveries n i m (insert_workflow_status i m db).1

module _ (i : InsertWorkflowInput) (isr : IsRecovery i) where
  touch-Runs : (a : ℕ) (r : WorkflowRow) → Runs i a r → Runs i (a + 1) (touch i r)
  unfolding touch is_queued
  touch-Runs a r h = ground arith

  no_conflict : (a : ℕ) (r : WorkflowRow) → Runs i a r → check_conflict i r ≡ ok tt
  unfolding check_conflict queue_conflict
  no_conflict a r h = ground (arith, eq_refl i.name, eq_iff r.name i.name)

  dead-eq :
      (m a : ℕ) (r : WorkflowRow)
      → Runs i a r
      → is_dead_letter r (pos m) ≡ (ltb 0 m && ltb (m + 1) a)
  unfolding is_dead_letter exceeds
  dead-eq m a r h = ground arith

  recovery_step :
      (m a : ℕ) (db : Db) (r : WorkflowRow)
      → row_of i.workflow_id db ≡ some r
      → Runs i a r
      → row_of i.workflow_id (insert_workflow_status i (pos m) db).1
        ≡ some (if ltb 0 m && ltb (m + 1) (a + 1) then bury (touch i r) else touch i r)
  recovery_step m a db r found h =
      rw (insert-accepted i (pos m) db r found (no_conflict (a + 1) (touch i r) (touch-Runs a r h)))
        (rw (row_of-bury_if i (pos m) db r found (is_dead_letter (touch i r) (pos m))) (
          rw (dead-eq m (a + 1) (touch i r) (touch-Runs a r h))
            (unfold touch in rw h.is_pending (ground arith))))

  -- A workflow that has run `a` times and may be retried `m` times: after `n` more recoveries it is
  -- still PENDING with `a + n` attempts as long as these are at most `m + 1`.
  recoveries-Runs :
      (m n a : ℕ) (db : Db) (r : WorkflowRow)
      → row_of i.workflow_id db ≡ some r
      → Runs i a r
      → a + n ≤ m + 1
      → (t : WorkflowRow) × (row_of i.workflow_id (recoveries n i (pos m) db) ≡ some t)
        × Runs i (a + n) t
  unfolding recoveries
  recoveries-Runs m zero a db r found h le = (r, found, ground arith)
  recoveries-Runs m (suc n) a db r found h le =
      let (t, p, q) =
        recoveries-Runs m n (a + 1) (insert_workflow_status i (pos m) db).1 (touch i r)
          (recovery_step m a db r found h ∙ ground arith) (touch-Runs a r h) (omega arith) in
      (t, p, ground arith)

  recoveries-suc :
      (m : ℤ) (n : ℕ) (db : Db)
      → recoveries (suc n) i m db ≡ (insert_workflow_status i m (recoveries n i m db)).1
  unfolding recoveries
  recoveries-suc m zero db = refl
  recoveries-suc m (suc n) db = recoveries-suc m n (insert_workflow_status i m db).1

-- A workflow that has run once, with a limit of `m` recoveries (`m` at least 1): through `m`
-- recoveries it stays PENDING and each adds one attempt; the next recovery moves it to
-- MAX_RECOVERY_ATTEMPTS_EXCEEDED, off its queue and with no deduplication id.
pub dead_letter_exact :
    (i : InsertWorkflowInput) (m n : ℕ) (db : Db) (r : WorkflowRow)
    → IsRecovery i
    → row_of i.workflow_id db ≡ some r
    → Runs i 1 r
    → 0 < m
    → n ≤ m
    → ((t : WorkflowRow) × (row_of i.workflow_id (recoveries n i (pos m) db) ≡ some t)
        × (t.status ≡ pending)
        × (t.recovery_attempts ≡ 1 + n))
      × ((t : WorkflowRow) × (row_of i.workflow_id (recoveries (suc m) i (pos m) db) ≡ some t)
          × (t.status ≡ max_recovery_attempts_exceeded)
          × (t.queue_name ≡ none)
          × (t.deduplication_id ≡ none))
dead_letter_exact i m n db r isr found h pos_m le = (alive, buried)
  where
    alive :
        (t : WorkflowRow) × (row_of i.workflow_id (recoveries n i (pos m) db) ≡ some t)
        × (t.status ≡ pending)
        × (t.recovery_attempts ≡ 1 + n)
    alive =
        let (t, p, q) = recoveries-Runs i isr m n 1 db r found h (omega arith) in
        (t, p, q.is_pending, q.attempts)

    buried :
        (t : WorkflowRow) × (row_of i.workflow_id (recoveries (suc m) i (pos m) db) ≡ some t)
        × (t.status ≡ max_recovery_attempts_exceeded)
        × (t.queue_name ≡ none)
        × (t.deduplication_id ≡ none)
    buried =
        let (t, p, q) = recoveries-Runs i isr m m 1 db r found h (omega arith) in
        (
          bury (touch i t),
          rw (recoveries-suc i isr (pos m) m db)
              (recovery_step i isr m (1 + m) (recoveries m i (pos m) db) t p q ∙ ground arith),
          unfold bury in refl,
          unfold bury in refl,
          unfold bury in refl,
        )
