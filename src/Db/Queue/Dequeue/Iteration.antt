-- ===== src/Db/Queue/Dequeue/Iteration.antt =====
-- What one dequeue does: it claims nothing and leaves the database, or runs the claiming loop.
use dbos_transact_rs.Prelude.{
  ℕ, ◌≡◌, refl, Bool, true, false, List, [], ◌∷◌, map, eqb, inl, inr, if◌then◌else◌, ◌⊎◌,
}
use dbos_transact_rs.Exec.{Result, ok, err}
use dbos_transact_rs.Db.Row.{WorkflowRow}
use dbos_transact_rs.Db.Tables.{Db}
use dbos_transact_rs.Db.Queue.Dequeue.{
  DequeueInput, DequeuedWorkflow, num_recent, reaches_limit, max_tasks, select_candidates,
  claim_all, claim_selected, commit_claimed, dequeue_workflows,
}

-- What an iteration hands to the runner.
abbrev pub claimed_by : Result (List DequeuedWorkflow) × Db → List DequeuedWorkflow
claimed_by (ok ws, db) = ws
claimed_by (err e, db) = []

module _ (locked : WorkflowRow → Bool) (i : DequeueInput) (now : ℕ) (db : Db) where
  abbrev pub loop : List WorkflowRow → List DequeuedWorkflow × Db
  loop rows = claim_all i now (num_recent i now db) 0 (map (λ r. r.workflow_uuid) rows) db

  -- An iteration claims nothing and leaves the database, or runs the loop on selected rows.
  abbrev pub IterationCases : Result (List DequeuedWorkflow) × Db → Type 0
  IterationCases r =
      ((claimed_by r ≡ []) × (r.1 ≡ db))
      ⊎ ((rows : List WorkflowRow) × (select_candidates locked i (max_tasks i db) db ≡ ok rows)
          × (reaches_limit i (num_recent i now db) ≡ false)
          × (claimed_by r ≡ (loop rows).0)
          × (r.1 ≡ (loop rows).1))

  commit_cases :
      (rows : List WorkflowRow) (p : List DequeuedWorkflow × Db)
      → select_candidates locked i (max_tasks i db) db ≡ ok rows
      → reaches_limit i (num_recent i now db) ≡ false
      → loop rows ≡ p
      → IterationCases (commit_claimed db p)
  commit_cases rows ([], db') s l e = inl (refl, refl)
  commit_cases rows (w ∷ ws, db') s l e = inr (rows, s, l, rw e, rw e)

  selected_cases :
      (c : Result (List WorkflowRow))
      → select_candidates locked i (max_tasks i db) db ≡ c
      → reaches_limit i (num_recent i now db) ≡ false
      → IterationCases (claim_selected i now db c)
  unfolding claim_selected
  selected_cases (err e) s l = inl (refl, refl)
  selected_cases (ok rows) s l = commit_cases rows (loop rows) s l refl

  abbrev unless : Bool → Result (List DequeuedWorkflow) × Db → Result (List DequeuedWorkflow) × Db
  unless b r = if b then (ok [], db) else r

  tasks_cases :
      (b : Bool)
      → reaches_limit i (num_recent i now db) ≡ false
      → IterationCases
          (unless b (claim_selected i now db (select_candidates locked i (max_tasks i db) db)))
  tasks_cases true l = inl (refl, refl)
  tasks_cases false l = selected_cases (select_candidates locked i (max_tasks i db) db) refl l

  limit_cases :
      (b : Bool)
      → reaches_limit i (num_recent i now db) ≡ b
      → IterationCases (
          unless b (
            unless
              (eqb (max_tasks i db) 0)
              (claim_selected i now db (select_candidates locked i (max_tasks i db) db))))
  limit_cases true l = inl (refl, refl)
  limit_cases false l = tasks_cases (eqb (max_tasks i db) 0) l

  pub iteration_cases : IterationCases (dequeue_workflows locked i now db)
  unfolding dequeue_workflows
  iteration_cases = limit_cases (reaches_limit i (num_recent i now db)) refl
