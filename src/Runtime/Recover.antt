-- ===== src/Runtime/Recover.antt =====
-- runtime/recovery.rs: `recover_pending_workflows`. What it logs is left out. The names of formats
-- (`Format::from_name`) and the texts of serde_json for roles are parameters.
pub mod Isolation
use dbos_transact_rs.Prelude.{
  ℕ, suc, String, Bool, true, false, Option, none, some, List, [], ◌∷◌, ◌++◌, if◌then◌else◌,
}
use mathlib.Core.Option
use dbos_transact_rs.Exec.{Result, ok, err, Exec}
use dbos_transact_rs.Db.Tables.{Db}
use dbos_transact_rs.Db.Queue.{clear_queue_assignment}
use dbos_transact_rs.Db.Status.Pending.{RecoverableWorkflow, list_pending_for_recovery}
use dbos_transact_rs.Runtime.Workflow.{WorkflowOptions, Executor, Handle, start_workflow}

-- The id, if the operation succeeded.
abbrev pub id_if : String → Bool → List String
id_if id b = if b then id ∷ [] else []

abbrev pub requeued : String → Result Bool → List String
requeued id (ok b) = id_if id b
requeued id (err _) = []

abbrev pub relaunched : String → Result Handle → List String
relaunched id (ok _) = id ∷ []
relaunched id (err _) = []

module _ (roles_text : List String → Option String) (roles_of : String → Option (List String))
    (format_name : Option String → String) (x : Executor) where
  -- The identity of the first run.
  unfoldable pub recovery_options : RecoverableWorkflow → WorkflowOptions
  recovery_options wf = record {
    workflow_id = some wf.id;
    application_version = none;
    authenticated_user = wf.authenticated_user;
    assumed_role = wf.assumed_role;
    authenticated_roles = Option.bind wf.authenticated_roles roles_of;
  }

  unfoldable pub relaunch : ℕ → String → RecoverableWorkflow → Db → List String × Db
  relaunch now owner wf db =
      let (r, db') =
        start_workflow roles_text x now wf.id owner wf.name wf.inputs (recovery_options wf) none
          (format_name wf.serialization) true db in
      (relaunched wf.id r, db')

  -- A queued workflow is put back on its queue, and one that is not registered is left.
  unfoldable pub recover_one : ℕ → String → RecoverableWorkflow → Db → List String × Db
  recover_one now owner wf db = elim wf.queue_name [
    | some _ ↦ let (r, db') = clear_queue_assignment wf.id db in (requeued wf.id r, db')
    | none ↦ elim (x.registry wf.name) [ none ↦ ([], db) | some _ ↦ relaunch now owner wf db ]
  ]

  -- `owners` are the random ids that the calls draw.
  unfoldable pub recover_all : ℕ → (ℕ → String) → List RecoverableWorkflow → Db → List String × Db
  recover_all now owners [] db = ([], db)
  recover_all now owners (wf ∷ wfs) db =
      let (ids, db') = recover_one now (owners 0) wf db in
      let rest = recover_all now (λ n. owners (suc n)) wfs db' in (ids ++ rest.0, rest.1)

  unfoldable pub recover_found :
      ℕ → (ℕ → String) → Result (List RecoverableWorkflow) × Db → Result (List String) × Db
  recover_found now owners (err e, db) = (err e, db)
  recover_found now owners (ok wfs, db) =
      let (ids, db') = recover_all now owners wfs db in (ok ids, db')

  unfoldable pub recover_pending_workflows : ℕ → (ℕ → String) → List String → Exec Db (List String)
  recover_pending_workflows now owners executor_ids db =
      recover_found now owners (list_pending_for_recovery executor_ids x.application_version db)
