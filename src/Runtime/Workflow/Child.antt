-- ===== src/Runtime/Workflow/Child.antt =====
-- runtime/context.rs: `run_workflow`, which starts a child workflow. `encode_input` of
-- serialize.rs is a parameter.
use dbos_transact_rs.Prelude.{ℕ, String, Bool, false, Option, none, some, List, if◌then◌else◌}
use dbos_transact_rs.Error.DbosError.{step_execution}
use dbos_transact_rs.Exec.{Result, ok, Exec, raise, lift, ◌>>=◌}
use dbos_transact_rs.Db.Steps.{check_child_workflow}
use dbos_transact_rs.Serialize.Codec.{portable_name}
use dbos_transact_rs.Runtime.Session.{Session, next_step_id, on_db}
use dbos_transact_rs.Runtime.Workflow.{WorkflowOptions, Executor, Handle, polling, start_workflow}

module _ {W P : Type 0} (encode_input : P → Result String)
    (roles_text : List String → Option String) (x : Executor) where
  -- A child that was recorded at this step is polled; otherwise it is started, and recorded with its
  -- start.
  unfoldable pub child_or_start :
      ℕ
      → String
      → String
      → String
      → P
      → WorkflowOptions
      → ℕ
      → Option String
      → Exec (Session W) Handle
  child_or_start now uuid owner name input opts step (some child) s = (ok (polling child), s)
  child_or_start now uuid owner name input opts step none s =
      (lift (encode_input input) >>= λ text. on_db (
          start_workflow roles_text x now uuid owner name (some text) opts (some (s.state, step))
            portable_name false))
        s

  unfoldable pub run_workflow :
      ℕ → Bool → String → String → String → P → WorkflowOptions → Exec (Session W) Handle
  run_workflow now within_step uuid owner name input opts s =
      (if within_step
          then raise (
              step_execution s.state.workflow_id name
                "cannot start a child workflow from within a step")
          else do
            step ← next_step_id
            child ← on_db (check_child_workflow s.state.workflow_id step)
            child_or_start now uuid owner name input opts step child)
        s
