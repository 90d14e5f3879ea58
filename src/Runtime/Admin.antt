-- ===== src/Runtime/Admin.antt =====
-- runtime/admin.rs: the handlers of the admin server, as functions from a request to a response and
-- a database. serde's derived reading of a request's body is a parameter. Whether the executor is
-- deactivated is the only state of the server itself.
pub mod Wire
pub mod Found
use dbos_transact_rs.Prelude.{
  ℕ, String, Bool, true, false, not, ◌⊎◌, inl, inr, Option, none, some, List, [], ◌∷◌, get_or,
  format, if◌then◌else◌,
}
use dbos_transact_rs.Error.DbosError.{DbosError, display}
use dbos_transact_rs.Exec.{Result, ok, err, Exec}
use dbos_transact_rs.Db.Tables.{Db}
use dbos_transact_rs.Db.Migrate.Run.{is_blank}
use dbos_transact_rs.Db.Management.List.{
  WorkflowStatus, StepInfo, ListWorkflowsFilter, no_filter, list_workflows, get_workflow_steps,
}
use dbos_transact_rs.Db.Management.Retire.{
  cancel_workflows, resume_workflows, cancel_all_before, garbage_collect, internal_queue_name,
}
use dbos_transact_rs.Db.Management.Fork.{ForkWorkflowInput, fork_workflow}
use dbos_transact_rs.Serialize.Value.{Value, boolean, string, array, object, empty_map, insert}
use dbos_transact_rs.Serialize.Serde.{Serde}
use dbos_transact_rs.Runtime.Queue.Options.{WorkflowQueue}
use dbos_transact_rs.Runtime.Admin.Wire.{values, queue_to_wire, workflow_to_wire, step_to_wire}

pub data Body : Type 0 where
  no_body : Body
  plain : String → Body
  json : Value → Body

pub record Response : Type 0 where
  pub status : ℕ
  pub body : Body

abbrev pub answer_json : Value → Response
answer_json v = record { status = 200; body = json v }

abbrev pub no_content : Response
no_content = record { status = 204; body = no_body }

abbrev pub bad_request : String → Response
bad_request text = record { status = 400; body = plain text }

abbrev pub not_found : Response
not_found = record { status = 404; body = plain "Workflow not found" }

abbrev pub server_error : String → Response
server_error text = record { status = 500; body = plain text }

-- The response to an operation's result, on the database that it leaves.
abbrev pub respond :
    {A : Type 0} → (A → Response) → (DbosError → String) → Result A × Db → Response × Db
respond answer failure (ok a, db) = (answer a, db)
respond answer failure (err e, db) = (server_error (failure e), db)

unfoldable pub healthz : Response
healthz = answer_json (object (insert "status" (string "healthy") empty_map))

unfoldable pub conductor_probe : Response
conductor_probe = answer_json (object (insert "status" (boolean true) empty_map))

-- The flag that was set, and whether this call stops the schedulers.
unfoldable pub deactivate : Bool → Response × Bool × Bool
deactivate deactivated =
    (record { status = 200; body = plain "deactivated" }, true, not deactivated)

-- An empty body is the default of the request's type.
unfoldable pub parse_or_default : {T : Type 0} → (String → String ⊎ T) → T → String → String ⊎ T
parse_or_default read default body = if is_blank body then inr default else read body

pub record RetentionReq : Type 0 where
  pub cutoff_epoch_timestamp_ms : Option ℕ
  pub rows_threshold : Option ℕ

abbrev pub no_retention : RetentionReq
no_retention = record { cutoff_epoch_timestamp_ms = none; rows_threshold = none }

pub record ForkReq : Type 0 where
  pub start_step : Option ℕ
  pub new_workflow_id : Option String
  pub application_version : Option String

abbrev pub no_fork_options : ForkReq
no_fork_options = record { start_step = none; new_workflow_id = none; application_version = none }

unfoldable pub queues_metadata : (ℕ → String) → List WorkflowQueue → Response
queues_metadata secs_text queues = answer_json (array (values (queue_to_wire secs_text) queues))

-- The recovery of the executors that the body lists, by `recover_pending_workflows`.
unfoldable pub recovery :
    (String → String ⊎ List String)
    → (List String → Exec Db (List String))
    → String
    → Db
    → Response × Db
recovery read recover body db = elim (read body) [
  | inl _ ↦ (bad_request "Invalid JSON body", db)
  | inr executor_ids ↦
      respond (λ ids. answer_json (array (values string ids)))
        (λ e. format ("Recovery failed: " ∷ display e ∷ [])) (recover executor_ids db)
]

unfoldable pub collect_garbage : (String → String ⊎ RetentionReq) → String → Db → Response × Db
unfolding parse_or_default
collect_garbage read body db = elim (parse_or_default read no_retention body) [
  | inl _ ↦ (bad_request "Invalid JSON body", db)
  | inr req ↦
      respond (λ _. no_content) (λ e. format ("GC failed: " ∷ display e ∷ []))
        (garbage_collect req.cutoff_epoch_timestamp_ms req.rows_threshold db)
]

unfoldable pub global_timeout : ℕ → (String → String ⊎ ℕ) → String → Db → Response × Db
global_timeout now read body db = elim (read body) [
  | inl _ ↦ (bad_request "Invalid JSON body", db)
  | inr cutoff ↦
      respond (λ _. no_content) (λ e. format ("Global timeout failed: " ∷ display e ∷ []))
        (cancel_all_before now cutoff db)
]

unfoldable pub cancel : ℕ → String → Db → Response × Db
cancel now id db = respond (λ _. no_content) display (cancel_workflows now (id ∷ []) db)

unfoldable pub resume : ℕ → String → Db → Response × Db
resume now id db =
    respond (λ _. no_content) display (resume_workflows now (id ∷ []) internal_queue_name db)

abbrev pub fork_input : String → ForkReq → ForkWorkflowInput
fork_input id req = record {
  original_workflow_id = id;
  forked_workflow_id = req.new_workflow_id;
  start_step = get_or req.start_step 0;
  application_version = req.application_version;
  queue_name = none;
  queue_partition_key = none;
}

unfoldable pub fork :
    ℕ → String → (String → String ⊎ ForkReq) → String → String → Db → Response × Db
unfolding parse_or_default
fork now uuid read id body db = elim (parse_or_default read no_fork_options body) [
  | inl _ ↦ (bad_request "Invalid JSON input", db)
  | inr req ↦
      respond (λ new_id. answer_json (object (insert "workflow_id" (string new_id) empty_map)))
        display (fork_workflow now uuid (fork_input id req) db)
]

-- The filter of one workflow's id.
abbrev pub by_id : String → ListWorkflowsFilter
by_id id = record no_filter { workflow_ids = some (id ∷ []) }

module _ (J : Serde)
    (decode_input decode_value : Option String → Option String → Result Value) where
  -- `wfs.first()`
  unfoldable pub first_to_wire : List (WorkflowStatus Value) → Response
  first_to_wire [] = not_found
  first_to_wire (w ∷ _) = answer_json (workflow_to_wire J w)

  unfoldable pub get_workflow : String → Db → Response × Db
  get_workflow id db =
      respond first_to_wire display (list_workflows decode_input decode_value (by_id id) db)

  unfoldable pub list_steps : String → Db → Response × Db
  list_steps id db =
      respond (λ steps. answer_json (array (values (step_to_wire J) steps))) display
        (get_workflow_steps decode_value id db)
