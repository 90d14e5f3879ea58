-- ===== src/Db/Management/Copies.antt =====
-- A fork is a new workflow with the original's input and the steps below its start.
use dbos_transact_rs.Prelude.{
  ℕ, String, ◌≡◌, ◌≢◌, refl, ◌∙◌, ap, Bool-cases, inl, inr, true, ◌&&◌, Option, none, some, arith,
  eq_iff, eq_refl, ltb, find, find-append, find-absent, find-map, find-select_if, find-and,
  find-insert, select, update, map, ◌++◌, insert, apply_if, or_else, get_or, if◌then◌else◌,
}
use mathlib.Core.Option
use dbos_transact_rs.Exec.{ok}
use dbos_transact_rs.Db.Row.{WorkflowRow, has_id}
use dbos_transact_rs.Db.Tables.{Db, OperationRow}
use dbos_transact_rs.Db.View.{row_of, row_of-update}
use dbos_transact_rs.Db.Steps.{is_operation, operation_of}
use dbos_transact_rs.Db.WorkflowStatusType.{enqueued}
use dbos_transact_rs.Db.Management.Retire.{internal_queue_name}
use dbos_transact_rs.Db.Management.Fork.{
  ForkWorkflowInput, forked_row, copied_step, renamed_step, copy_steps, mark_forked, insert_fork,
  fork_of, fork_workflow,
}

module _ (now : ℕ) (uuid : String) (i : ForkWorkflowInput) (db : Db) (original : WorkflowRow)
    (found : row_of i.original_workflow_id db ≡ some original) where
  abbrev new_id : String
  new_id = get_or i.forked_workflow_id uuid

  abbrev forked : Db
  forked = insert_fork now new_id i original db

  -- The statements on the other tables leave `workflow_status`.
  forked-status :
      forked.workflow_status
      ≡ update
          (has_id i.original_workflow_id)
          (λ r. record r { was_forked_from = true })
          (insert (forked_row now new_id i original) db.workflow_status)
  unfolding insert_fork mark_forked copy_steps
  forked-status = elim (Bool-cases (ltb 0 i.start_step)) [ inl e ↦ rw e refl | inr e ↦ rw e refl ]

  copied-steps : forked.operation_outputs ≡ (
      if ltb 0 i.start_step
      then db.operation_outputs
        ++ map
            (renamed_step new_id)
            (select (copied_step i.original_workflow_id i.start_step) db.operation_outputs)
      else db.operation_outputs)
  unfolding insert_fork mark_forked copy_steps
  copied-steps = elim (Bool-cases (ltb 0 i.start_step)) [ inl e ↦ rw e refl | inr e ↦ rw e refl ]

  module _ (absent : row_of new_id db ≡ none) where
    apart : i.original_workflow_id ≢ new_id
    apart e =
        let same : row_of i.original_workflow_id db ≡ row_of new_id db =
          ap (λ id. find (has_id id) db.workflow_status) e in
        cc (same, found, absent)

    fork_workflow-ok : fork_workflow now uuid i db ≡ (ok new_id, forked)
    unfolding fork_workflow fork_of
    fork_workflow-ok = rw found (rw absent refl)

    row_of-forked : row_of new_id forked ≡ some (forked_row now new_id i original)
    row_of-forked =
        ap (find (has_id new_id)) forked-status
        ∙ row_of-update (has_id i.original_workflow_id) (λ r. record r { was_forked_from = true })
            (λ r. refl) new_id (insert (forked_row now new_id i original) db.workflow_status)
        ∙ rw (find-insert (has_id new_id)) (rw absent at_fork)
      where
        at_fork :
            Option.map
              (apply_if (has_id i.original_workflow_id) (λ r. record r { was_forked_from = true }))
              (if has_id new_id (forked_row now new_id i original)
                then some (forked_row now new_id i original)
                else none)
            ≡ some (forked_row now new_id i original)
        at_fork =
            unfold forked_row in
            ground (arith, eq_refl new_id, eq_iff new_id i.original_workflow_id, apart)

    -- The rows copied under the new id, asked for one step.
    find-copied :
        (k : ℕ)
        → find (is_operation new_id k) (
            map
              (renamed_step new_id)
              (select (copied_step i.original_workflow_id i.start_step) db.operation_outputs))
          ≡ (if ltb k i.start_step
              then Option.map (renamed_step new_id) (operation_of i.original_workflow_id k db)
              else none)
    find-copied k =
        find-map (is_operation new_id k) (renamed_step new_id)
          (select (copied_step i.original_workflow_id i.start_step) db.operation_outputs)
        ∙ ap (Option.map (renamed_step new_id)) (
            find-select_if (copied_step i.original_workflow_id i.start_step)
              (λ r. is_operation new_id k (renamed_step new_id r))
              (λ r. ltb k i.start_step && is_operation i.original_workflow_id k r)
              (λ r. ground (arith, eq_refl new_id)) db.operation_outputs
            ∙ find-and (ltb k i.start_step) (is_operation i.original_workflow_id k)
                db.operation_outputs)
        ∙ ground arith

    operation_of-forked :
        (k : ℕ)
        → operation_of new_id k db ≡ none
        → operation_of new_id k forked ≡ (
            if ltb k i.start_step
            then Option.map (renamed_step new_id) (operation_of i.original_workflow_id k db)
            else none)
    operation_of-forked k none_yet =
        ap (find (is_operation new_id k)) copied-steps ∙ elim (Bool-cases (ltb 0 i.start_step)) [
          | inl e ↦ rw e (rw (find-append (is_operation new_id k)) (rw none_yet (find-copied k)))
          | inr e ↦ rw e (none_yet ∙ ground arith)
        ]

    operation_of-original :
        (k : ℕ)
        → operation_of i.original_workflow_id k forked ≡ operation_of i.original_workflow_id k db
    operation_of-original k =
        ap (find (is_operation i.original_workflow_id k)) copied-steps
        ∙ elim (Bool-cases (ltb 0 i.start_step)) [
          | inl e ↦ rw e (
              rw (find-append (is_operation i.original_workflow_id k)) (
                rw (find-map (is_operation i.original_workflow_id k) (renamed_step new_id)) (
                  rw
                    (find-absent
                      (λ r. is_operation i.original_workflow_id k (renamed_step new_id r))
                      (λ r. ground (arith, eq_iff new_id i.original_workflow_id, apart)))
                    (at_end (operation_of i.original_workflow_id k db)))))
          | inr e ↦ rw e refl
        ]
      where
        at_end : (o : Option OperationRow) → or_else o none ≡ o
        at_end none = refl
        at_end (some r) = refl

-- A new workflow from `original`: it waits on the queue that the input names or on the internal one,
-- under the original's name, class, identity, input and format, with the version and partition that
-- the input asks for; nothing has run, and it names the original.
pub record IsFork (now : ℕ) (id : String) (i : ForkWorkflowInput) (original w : WorkflowRow)
    : Type 0 where
  pub waits : w.status ≡ enqueued
  pub on_queue : w.queue_name ≡ some (get_or i.queue_name internal_queue_name)
  pub partition : w.queue_partition_key ≡ i.queue_partition_key
  pub version : w.application_version ≡ i.application_version
  pub same_name : w.name ≡ original.name
  pub same_class : w.class_name ≡ original.class_name
  pub same_config : w.config_name ≡ original.config_name
  pub same_application : w.application_id ≡ original.application_id
  pub same_user : w.authenticated_user ≡ original.authenticated_user
  pub same_role : w.assumed_role ≡ original.assumed_role
  pub same_roles : w.authenticated_roles ≡ original.authenticated_roles
  pub same_inputs : w.inputs ≡ original.inputs
  pub same_format : w.serialization ≡ original.serialization
  pub no_attempts : w.recovery_attempts ≡ 0
  pub no_output : w.output ≡ none
  pub no_error : w.error ≡ none
  pub created : w.created_at ≡ now
  pub of_original : w.forked_from ≡ some i.original_workflow_id

forked_row-IsFork :
    (now : ℕ) (id : String) (i : ForkWorkflowInput) (original : WorkflowRow)
    → IsFork now id i original (forked_row now id i original)
unfolding forked_row
forked_row-IsFork now id i original = record {
  waits = refl;
  on_queue = refl;
  partition = refl;
  version = refl;
  same_name = refl;
  same_class = refl;
  same_config = refl;
  same_application = refl;
  same_user = refl;
  same_role = refl;
  same_roles = refl;
  same_inputs = refl;
  same_format = refl;
  no_attempts = refl;
  no_output = refl;
  no_error = refl;
  created = refl;
  of_original = refl;
}

-- Forking a workflow that exists under an id that is not in use, with no steps of that id, gives a new
-- ENQUEUED workflow with the original's name, identity, input and format. Its step `k` is the
-- original's with nothing but the workflow's id changed, where `k` is below the start, and is not
-- recorded otherwise; the original's steps stay as they were.
pub fork_workflow-copies :
    (now : ℕ) (uuid : String) (i : ForkWorkflowInput) (db : Db) (original : WorkflowRow) (k : ℕ)
    → row_of i.original_workflow_id db ≡ some original
    → row_of (get_or i.forked_workflow_id uuid) db ≡ none
    → operation_of (get_or i.forked_workflow_id uuid) k db ≡ none
    → ((fork_workflow now uuid i db).0 ≡ ok (get_or i.forked_workflow_id uuid))
      × ((w : WorkflowRow) × (row_of
              (get_or i.forked_workflow_id uuid)
              (fork_workflow now uuid i db).1
            ≡ some w)
          × IsFork now (get_or i.forked_workflow_id uuid) i original w)
      × (operation_of (get_or i.forked_workflow_id uuid) k (fork_workflow now uuid i db).1 ≡ (
          if ltb k i.start_step
          then Option.map
              (λ (r : OperationRow). record {
                workflow_uuid = get_or i.forked_workflow_id uuid;
                function_id = r.function_id;
                function_name = r.function_name;
                output = r.output;
                error = r.error;
                child_workflow_id = r.child_workflow_id;
                started_at_epoch_ms = r.started_at_epoch_ms;
                completed_at_epoch_ms = r.completed_at_epoch_ms;
                serialization = r.serialization;
              })
              (operation_of i.original_workflow_id k db)
          else none))
      × (operation_of i.original_workflow_id k (fork_workflow now uuid i db).1
          ≡ operation_of i.original_workflow_id k db)
fork_workflow-copies now uuid i db original k found absent none_yet =
    let id = get_or i.forked_workflow_id uuid in
    rw (fork_workflow-ok now uuid i db original found absent) (
      refl,
      (
        forked_row now id i original,
        row_of-forked now uuid i db original found absent,
        forked_row-IsFork now id i original,
      ),
      operation_of-forked now uuid i db original found absent k none_yet,
      operation_of-original now uuid i db original found absent k,
    )
