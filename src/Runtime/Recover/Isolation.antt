-- ===== src/Runtime/Recover/Isolation.antt =====
-- A recovery touches the workflows that it lists, and no other.
use dbos_transact_rs.Prelude.{
  ℕ, suc, ◌≤◌, String, ◌≡◌, ◌≢◌, refl, ◌∙◌, Bool, true, false, Option, none, some, List, [], ◌∷◌,
  map, arith, eq_iff, find, count, select, All, Bool-cases, Option-cases, inl, inr,
}
use dbos_transact_rs.Prelude.Int.{ℤ}
use dbos_transact_rs.Exec.{pure}
use dbos_transact_rs.Exec.Relates.{
  Relates, Relates-pure, Relates-lift, Relates-if, Relates-transaction, Relates-bind,
}
use dbos_transact_rs.Db.Row.{WorkflowRow, has_id}
use dbos_transact_rs.Db.Tables.{Db}
use dbos_transact_rs.Db.View.{row_of, row_of-update_ne, has_id_apart, Frame, UniqueIds}
use dbos_transact_rs.Db.Queue.{is_assigned, requeue, clear_queue_assignment}
use dbos_transact_rs.Db.Status.Insert.{InsertWorkflowInput, insert_workflow_status}
use dbos_transact_rs.Db.Status.Insert.Laws.{insert_workflow_status-frame}
use dbos_transact_rs.Db.Status.Pending.{
  RecoverableWorkflow, recoverable, awaits_recovery, list_pending_for_recovery,
}
use dbos_transact_rs.Runtime.Workflow.{
  WorkflowOptions, Executor, start_id, start_input, claim_start, record_child, start_input_workflow,
  start_workflow,
}
use dbos_transact_rs.Runtime.Recover.{
  recovery_options, relaunch, recover_one, recover_all, recover_found, recover_pending_workflows,
}

module _ (k : String) (i : InsertWorkflowInput) (ne : i.workflow_id ≢ k) where
  insert-Frame : (m : ℤ) → Relates (Frame k) (insert_workflow_status i m)
  insert-Frame m = record { at = λ db. insert_workflow_status-frame i m k db ne }

  start_input_workflow-Frame :
      (now : ℕ) (m : ℤ) (is_recovery : Bool)
      → Relates (Frame k) (start_input_workflow now i m none is_recovery)
  unfolding start_input_workflow claim_start record_child
  start_input_workflow-Frame now m is_recovery =
      Relates-bind (Frame k) _ _
        (Relates-transaction (Frame k) _ (
          Relates-bind (Frame k) (insert_workflow_status i m) _ (insert-Frame m) (λ res.
            Relates-if (Frame k) res.dlq_triggered (pure res) _ (Relates-pure (Frame k) res) (
              Relates-bind (Frame k) (pure tt) _ (Relates-pure (Frame k) tt)
                (λ _. Relates-pure (Frame k) res)))))
        (λ res. Relates-lift (Frame k) _)

module _ (roles_text : List String → Option String) (roles_of : String → Option (List String))
    (format_name : Option String → String) (x : Executor) (k : String) where
  start_workflow-frame :
      (now : ℕ) (uuid owner name fmt : String) (inputs : Option String) (opts : WorkflowOptions)
      (is_recovery : Bool) (id : String) (db : Db)
      → opts.workflow_id ≡ some id
      → id ≢ k
      → row_of k
          (start_workflow roles_text x now uuid owner name inputs opts none fmt is_recovery db).1
        ≡ row_of k db
  unfolding start_workflow find start_input
  start_workflow-frame now uuid owner name fmt inputs opts is_recovery id db e ne =
      elim (Option-cases (x.registry name)) [
        | inl h ↦ rw (h, start_workflow) refl
        | inr (entry, h) ↦
            rw (h, start_workflow)
              (unfold start_id in
                rw e (
                  (start_input_workflow-Frame k
                      (start_input roles_text x now id owner name entry inputs opts none fmt
                        is_recovery)
                      (unfold start_input in ne) now entry.max_retries is_recovery).at
                    db))
      ]

  clear_queue_assignment-frame :
      (id : String) (db : Db) → id ≢ k → row_of k (clear_queue_assignment id db).1 ≡ row_of k db
  unfolding clear_queue_assignment requeue
  clear_queue_assignment-frame id db ne =
      row_of-update_ne (is_assigned id) requeue (λ r. refl) k
        (λ r h. ground (arith, has_id_apart id k ne r h)) db.workflow_status

  recover_one-frame :
      (now : ℕ) (owner : String) (wf : RecoverableWorkflow) (db : Db)
      → wf.id ≢ k
      → row_of k (recover_one roles_text roles_of format_name x now owner wf db).1 ≡ row_of k db
  unfolding recover_one find
  recover_one-frame now owner wf db ne = elim (Option-cases wf.queue_name) [
    | inr (q, h) ↦ rw (h, recover_one) (clear_queue_assignment-frame wf.id db ne)
    | inl h ↦
        rw (h, recover_one)
          (elim (Option-cases (x.registry wf.name)) [
            | inl g ↦ rw g refl
            | inr (entry, g) ↦ rw g (
                unfold relaunch in
                start_workflow-frame now wf.id owner wf.name (format_name wf.serialization)
                  wf.inputs (recovery_options roles_text roles_of format_name x wf) true wf.id db
                  (unfold recovery_options in refl) ne)
          ])
  ]

  recover_all-frame :
      (now : ℕ) (owners : ℕ → String) (wfs : List RecoverableWorkflow) (db : Db)
      → All (λ wf. wf.id ≢ k) wfs
      → row_of k (recover_all roles_text roles_of format_name x now owners wfs db).1 ≡ row_of k db
  unfolding recover_all
  recover_all-frame now owners [] db h = refl
  recover_all-frame now owners (wf ∷ wfs) db h =
      recover_all-frame now (λ n. owners (suc n)) wfs
        (recover_one roles_text roles_of format_name x now (owners 0) wf db).1 h.1
      ∙ recover_one-frame now (owners 0) wf db h.0

-- An id that no row has is not listed.
unlisted :
    (p : WorkflowRow → Bool) (k : String) (rows : List WorkflowRow)
    → count (has_id k) rows ≡ 0
    → All (λ wf. wf.id ≢ k) (map recoverable (select p rows))
unfolding count select
unlisted p k [] h = tt
unlisted p k (x ∷ rows) h = elim (Bool-cases (p x)) [
  | inl e ↦ rw e (
    λ same. ground (arith, eq_iff x.workflow_uuid k, same, h),
    unlisted p k rows (ground (arith, h)),
  )
  | inr e ↦ rw e (unlisted p k rows (ground (arith, h)))
]

-- With unique ids, the listed workflows are others than one that does not await recovery.
listed_apart :
    (p : WorkflowRow → Bool) (k : String) (rows : List WorkflowRow)
    → (count (has_id k) rows ≤ 1)
    → (r : WorkflowRow) → find (has_id k) rows ≡ some r
    → p r ≡ false
    → All (λ wf. wf.id ≢ k) (map recoverable (select p rows))
unfolding count find select
listed_apart p k [] u r found spared = tt
listed_apart p k (x ∷ rows) u r found spared = elim (Bool-cases (p x)) [
  | inl e ↦ rw e (
    λ same. ground (arith, eq_iff x.workflow_uuid k, same, found, spared, e),
    listed_apart p k rows (ground (arith, u)) r (ground (arith, found, spared, e)) spared,
  )
  | inr e ↦ rw e (elim (Bool-cases (has_id k x)) [
    | inl h ↦ unlisted p k rows (ground (arith, u, h))
    | inr h ↦ listed_apart p k rows (ground (arith, u)) r (ground (arith, found, h)) spared
  ])
]

-- A recovery leaves every workflow that is not PENDING with one of the given executors and this
-- version of the application exactly as it was, where workflow ids are unique.
pub recover_pending_workflows-frame :
    (roles_text : List String → Option String) (roles_of : String → Option (List String))
    (format_name : Option String → String) (x : Executor) (now : ℕ) (owners : ℕ → String)
    (executor_ids : List String) (k : String) (db : Db) (r : WorkflowRow)
    → UniqueIds db
    → row_of k db ≡ some r
    → awaits_recovery executor_ids x.application_version r ≡ false
    → row_of k
        (recover_pending_workflows roles_text roles_of format_name x now owners executor_ids db).1
      ≡ some r
unfolding recover_pending_workflows recover_found list_pending_for_recovery
recover_pending_workflows-frame roles_text roles_of format_name x now owners executor_ids k db r
      unique found spared =
    recover_all-frame roles_text roles_of format_name x k now owners
      (map recoverable
        (select (awaits_recovery executor_ids x.application_version) db.workflow_status))
      db
      (listed_apart (awaits_recovery executor_ids x.application_version) k db.workflow_status
        (unique k) r found spared)
    ∙ found
