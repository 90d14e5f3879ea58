-- ===== src/Db/Management/Settled.antt =====
-- Each operation of Lifecycle keeps a final outcome, and so does every sequence of them.
use dbos_transact_rs.Prelude.{
  ℕ, ◌+◌, length, insert, get_or, ltb, String, ◌≡◌, refl, ◌∙◌, ap, Bool, true, Option, none, some,
  List, [], ◌∷◌, map, arith, eq_iff, ◌==◌, inl, inr, find-insert, update, apply_if, is_some,
  Bool-cases,
}
use dbos_transact_rs.Prelude.Int.{ℤ}
use dbos_transact_rs.Exec.{Result, ok, err}
use dbos_transact_rs.Db.WorkflowStatusType.{WorkflowStatusType}
use dbos_transact_rs.Db.Row.{WorkflowRow, has_id}
use dbos_transact_rs.Db.Tables.{Db}
use dbos_transact_rs.Db.View.{row_of, row_of-update, KeepsId}
use dbos_transact_rs.Db.Status.Insert.{
  InsertWorkflowInput, insert_workflow_status, touch, bury, check_conflict, is_dead_letter,
}
use dbos_transact_rs.Db.Status.Insert.Laws.{
  insert_workflow_status-frame, insert-conflict, insert-accepted, row_of-touched, row_of-bury_if,
}
use dbos_transact_rs.Db.Status.Outcome.{update_workflow_outcome-frame}
use dbos_transact_rs.Db.Queue.{
  is_due, promote, transition_delayed_workflows, is_assigned, requeue, clear_queue_assignment,
}
use dbos_transact_rs.Db.Queue.Dequeue.{
  DequeueInput, is_claimable, claim, claim_one, claim_all, dequeue_workflows, reaches_limit,
  num_recent,
}
use dbos_transact_rs.Db.Queue.Dequeue.Iteration.{iteration_cases}
use dbos_transact_rs.Db.Management.Retire.{
  may_cancel, cancel, cancel_workflows, may_resume, resume, resume_workflows,
}
use dbos_transact_rs.Db.Management.Fork.{
  ForkWorkflowInput, fork_workflow, fork_of, insert_fork, forked_row, mark_forked, copy_steps,
}
use dbos_transact_rs.Db.Management.Lifecycle.{
  outcome, is_final, Settled, Step, inserts, reports, promotes, requeues, dequeues, cancels,
  resumes, forks, Reaches, stop, next,
}

module _ (id : String) (o : WorkflowStatusType × Option String × Option String) where
  -- The row decides: where another database has a row of the same outcome for the id.
  Settled-row :
      (db : Db) (r : WorkflowRow)
      → row_of id db ≡ some r
      → outcome r ≡ o
      → is_final r.status ≡ true
      → Settled id o db
  Settled-row db r p e f = record { row = r; present = p; ended = e; final = f }

  -- An update that leaves final rows' outcomes.
  Settled-update :
      (p : WorkflowRow → Bool) (f : WorkflowRow → WorkflowRow)
      → KeepsId f
      → ((r : WorkflowRow) → is_final r.status ≡ true → outcome (apply_if p f r) ≡ outcome r)
      → (db : Db) → Settled id o db
      → Settled id o (record db { workflow_status = update p f db.workflow_status })
  Settled-update p f keeps same db s = record {
    row = apply_if p f s.row;
    present = row_of-update p f keeps id db.workflow_status ∙ rw s.present refl;
    ended = same s.row s.final ∙ s.ended;
    final = rw (ap (λ x. x.0) (same s.row s.final)) s.final;
  }

  Settled-frame : (db db' : Db) → row_of id db' ≡ row_of id db → Settled id o db → Settled id o db'
  Settled-frame db db' e s = Settled-row db' s.row (e ∙ s.present) s.ended s.final

  Settled-touched :
      (i : InsertWorkflowInput) (m : ℤ) (db : Db) (s : Settled id o db)
      → i.workflow_id ≡ id
      → (c : Result (Unit {0})) → check_conflict i (touch i s.row) ≡ c
      → Settled id o (insert_workflow_status i m db).1
  unfolding touch bury
  Settled-touched i m db s e (err x) h =
      let found : row_of i.workflow_id db ≡ some s.row = rw e s.present in
      Settled-row (insert_workflow_status i m db).1 (touch i s.row)
        (rw (insert-conflict i m db s.row found x h) (rw (← e) (row_of-touched i m db s.row found)))
        s.ended s.final
  Settled-touched i m db s e (ok x) h =
      let found : row_of i.workflow_id db ≡ some s.row = rw e s.present in
      Settled-row (insert_workflow_status i m db).1 (touch i s.row)
        (rw (insert-accepted i m db s.row found h) (
          rw (← e) (
            row_of-bury_if i m db s.row found (is_dead_letter (touch i s.row) m)
            ∙ ground (arith, s.final))))
        s.ended s.final

  Settled-inserts :
      (i : InsertWorkflowInput) (m : ℤ) (db : Db)
      → Settled id o db
      → Settled id o (insert_workflow_status i m db).1
  Settled-inserts i m db s = elim (Bool-cases (i.workflow_id == id)) [
    | inl e ↦
        Settled-touched i m db s (ground (arith, eq_iff i.workflow_id id))
          (check_conflict i (touch i s.row)) refl
    | inr e ↦
        Settled-frame db (insert_workflow_status i m db).1
          (insert_workflow_status-frame i m id db (ground (arith, eq_iff i.workflow_id id))) s
  ]

  Settled-claim_one :
      (i : DequeueInput) (now : ℕ) (k : String) (db : Db)
      → Settled id o db
      → Settled id o (claim_one i now k db).1
  unfolding claim_one claim
  Settled-claim_one i now k db s =
      Settled-update (is_claimable k) (claim i now) (λ r. refl) (λ r h. ground arith) db s

  Settled-claim_all :
      (i : DequeueInput) (now recent claimed : ℕ) (ids : List String) (db : Db)
      → Settled id o db
      → Settled id o (claim_all i now recent claimed ids db).1
  unfolding claim_all
  Settled-claim_all i now recent claimed [] db s = s
  Settled-claim_all i now recent claimed (k ∷ ids) db s =
      elim (Bool-cases (reaches_limit i (claimed + recent))) [
        | inl e ↦ rw e s
        | inr e ↦ rw e (
            Settled-claim_all i now recent (claimed + length (claim_one i now k db).0) ids
              (claim_one i now k db).1 (Settled-claim_one i now k db s))
      ]

  Settled-dequeues :
      (locked : WorkflowRow → Bool) (i : DequeueInput) (now : ℕ) (db : Db)
      → Settled id o db
      → Settled id o (dequeue_workflows locked i now db).1
  Settled-dequeues locked i now db s = elim (iteration_cases locked i now db) [
    | inl (_, unchanged) ↦ rw unchanged s
    | inr (rows, _, _, _, d) ↦
        rw d
          (Settled-claim_all i now (num_recent i now db) 0 (map (λ r. r.workflow_uuid) rows) db s)
  ]

  Settled-insert :
      (x : WorkflowRow) (db : Db)
      → Settled id o db
      → Settled id o (record db { workflow_status = insert x db.workflow_status })
  Settled-insert x db s =
      Settled-row _ s.row (find-insert (has_id id) x db.workflow_status ∙ rw s.present refl) s.ended
        s.final

  Settled-insert_fork :
      (now : ℕ) (k : String) (i : ForkWorkflowInput) (r : WorkflowRow) (db : Db)
      → Settled id o db
      → Settled id o (insert_fork now k i r db)
  unfolding insert_fork mark_forked copy_steps
  Settled-insert_fork now k i r db s =
      let marked : Settled id o (
          mark_forked i.original_workflow_id
            (record db { workflow_status = insert (forked_row now k i r) db.workflow_status })) =
        Settled-update (has_id i.original_workflow_id) (λ x. record x { was_forked_from = true })
          (λ x. refl) (λ x h. ground arith) _ (Settled-insert (forked_row now k i r) db s) in
      elim (Bool-cases (ltb 0 i.start_step)) [
        | inl e ↦ rw e (Settled-frame _ _ refl marked)
        | inr e ↦ rw e marked
      ]

  Settled-fork_of :
      (now : ℕ) (k : String) (i : ForkWorkflowInput) (r : Option WorkflowRow) (db : Db)
      → Settled id o db
      → Settled id o (fork_of now k i r db).1
  unfolding fork_of
  Settled-fork_of now k i none db s = s
  Settled-fork_of now k i (some r) db s = elim (Bool-cases (is_some (row_of k db))) [
    | inl e ↦ rw e s
    | inr e ↦ rw e (Settled-insert_fork now k i r db s)
  ]

  Settled-forks :
      (now : ℕ) (uuid : String) (i : ForkWorkflowInput) (db : Db)
      → Settled id o db
      → Settled id o (fork_workflow now uuid i db).1
  Settled-forks now uuid i db s =
      unfold fork_workflow in
      Settled-fork_of now (get_or i.forked_workflow_id uuid) i (row_of i.original_workflow_id db) db
        s

  Settled-Step : (db db' : Db) → Step id db db' → Settled id o db → Settled id o db'
  Settled-Step db db' (inserts i m _) s = Settled-inserts i m db s
  Settled-Step db db' (reports now k new output failure _ ne) s =
      Settled-frame db db' (update_workflow_outcome-frame now k new output failure db id ne) s
  Settled-Step db db' (promotes now _) s =
      unfold transition_delayed_workflows promote in
      Settled-update (is_due now) promote (λ r. refl) (λ r h. ground arith) db s
  Settled-Step db db' (requeues k _) s =
      unfold clear_queue_assignment requeue in
      Settled-update (is_assigned k) requeue (λ r. refl) (λ r h. ground arith) db s
  Settled-Step db db' (dequeues locked i now _) s = Settled-dequeues locked i now db s
  Settled-Step db db' (cancels now ids _) s =
      unfold cancel_workflows cancel may_cancel in
      Settled-update (may_cancel ids) (cancel now) (λ r. refl) (λ r h. ground arith) db s
  Settled-Step db db' (resumes now ids queue _) s =
      unfold resume_workflows resume may_resume in
      Settled-update (may_resume ids) (resume now queue) (λ r. refl) (λ r h. ground arith) db s
  Settled-Step db db' (forks now uuid i _) s = Settled-forks now uuid i db s

-- A workflow that has succeeded or failed keeps its state, its output and its error through any
-- sequence of inserts, promotions, requeues, dequeues, cancellations, resumptions, forks and reports
-- of other workflows' outcomes, as long as its own outcome is not reported again.
pub final_outcome_kept :
    (id : String) (o : WorkflowStatusType × Option String × Option String) (db db' : Db)
    → Reaches id db db'
    → Settled id o db
    → Settled id o db'
final_outcome_kept id o db db' (stop _) s = s
final_outcome_kept id o db db' (next {db' = mid} step steps) s =
    final_outcome_kept id o mid db' steps (Settled-Step id o db mid step s)
