-- ===== src/Tests/Management.antt =====
-- Cancellation, forks, collection and sequences of operations at concrete rows.
use dbos_transact_rs.Prelude.{◌≡◌, refl, none, some, [], ◌∷◌, arith, find, count, eq_iff, any_eq}
use dbos_transact_rs.Error.DbosError.{workflow_cancelled}
use dbos_transact_rs.Exec.{ok, err}
use dbos_transact_rs.Db.WorkflowStatusType.{pending, success, cancelled}
use dbos_transact_rs.Db.Row.{WorkflowRow}
use dbos_transact_rs.Db.Tables.{Db}
use dbos_transact_rs.Db.View.{row_of, UniqueIds}
use dbos_transact_rs.Db.Status.Outcome.{update_workflow_outcome}
use dbos_transact_rs.Db.Steps.{operation_of, check_operation_execution, operation_row}
use dbos_transact_rs.Db.Management.Retire.{cancel_workflows, resume_workflows, garbage_collect}
use dbos_transact_rs.Db.Management.Fork.{ForkWorkflowInput, fork_workflow}
use dbos_transact_rs.Db.Management.Lifecycle.{Settled, stop, next, cancels, resumes}
use dbos_transact_rs.Db.Management.Settled.{final_outcome_kept}
use dbos_transact_rs.Db.Management.Copies.{IsFork, fork_workflow-copies}
use dbos_transact_rs.Db.Management.Collected.{garbage_collect-exact}
use dbos_transact_rs.Db.Management.Cancelled.{cancel_workflows-row, cancel_stops}
use dbos_transact_rs.Tests.Fixtures.{plain_row, queued_row, db_of}

-- A workflow that runs, with one recorded step, and one that has succeeded.
abbrev running_and_done : Db
running_and_done = record (db_of (plain_row "w" pending ∷ plain_row "d" success ∷ [])) {
  operation_outputs = operation_row 50 "w" 0 "authorize" (some "1") none none none ∷ [];
}

running_and_done-UniqueIds : UniqueIds running_and_done
unfolding count
running_and_done-UniqueIds id = ground (arith, eq_iff "w" id, eq_iff "d" id, eq_iff "w" "d")

-- A workflow that waits on a queue under a deduplication id.
abbrev queued_once : WorkflowRow
queued_once = record (queued_row "q" 1) { deduplication_id = some "order-1" }

cancel_workflows-row_example :
    row_of "q" (cancel_workflows 900 ("q" ∷ "d" ∷ []) (db_of (queued_once ∷ []))).1
    ≡ some (record queued_once {
      status = cancelled;
      updated_at = 900;
      completed_at = some 900;
      started_at_epoch_ms = none;
      queue_name = none;
      deduplication_id = none;
    })
unfolding find any_eq
cancel_workflows-row_example =
    cancel_workflows-row 900 ("q" ∷ "d" ∷ []) "q" (db_of (queued_once ∷ [])) queued_once refl

cancel_stops_example :
    (check_operation_execution "w" 1 "capture" (cancel_workflows 900 ("w" ∷ []) running_and_done).1
      ≡ (err (workflow_cancelled "w"), (cancel_workflows 900 ("w" ∷ []) running_and_done).1))
    × (row_of "w"
          (update_workflow_outcome 950 "w" success
            (some "1")
            none
            (cancel_workflows 900 ("w" ∷ []) running_and_done).1).1
        ≡ row_of "w" (cancel_workflows 900 ("w" ∷ []) running_and_done).1)
unfolding find any_eq
cancel_stops_example =
    cancel_stops 900 950 ("w" ∷ []) "w" "capture" 1 success (some "1") none running_and_done
      (plain_row "w" pending) refl refl refl refl

final_outcome_kept_example :
    Settled "d"
      (success, none, none)
      (resume_workflows 950
        ("d" ∷ [])
        "payments"
        (cancel_workflows 900 ("d" ∷ []) running_and_done).1).1
unfolding find
final_outcome_kept_example =
    final_outcome_kept "d" (success, none, none) running_and_done
      (resume_workflows 950 ("d" ∷ []) "payments"
        (cancel_workflows 900 ("d" ∷ []) running_and_done).1).1
      (next (cancels 900 ("d" ∷ []) running_and_done) (
        next
          (resumes 950 ("d" ∷ []) "payments" (cancel_workflows 900 ("d" ∷ []) running_and_done).1)
          (stop _)))
      (record { row = plain_row "d" success; present = refl; ended = refl; final = refl })

abbrev fork_input : ForkWorkflowInput
fork_input = record {
  original_workflow_id = "w";
  forked_workflow_id = some "f";
  start_step = 1;
  application_version = none;
  queue_name = none;
  queue_partition_key = none;
}

fork_workflow-copies_example :
    ((fork_workflow 900 "u" fork_input running_and_done).0 ≡ ok "f")
    × ((w : WorkflowRow) × (row_of "f" (fork_workflow 900 "u" fork_input running_and_done).1
          ≡ some w)
        × IsFork 900 "f" fork_input (plain_row "w" pending) w)
    × (operation_of "f" 0 (fork_workflow 900 "u" fork_input running_and_done).1
        ≡ some (operation_row 50 "f" 0 "authorize" (some "1") none none none))
    × (operation_of "w" 0 (fork_workflow 900 "u" fork_input running_and_done).1
        ≡ some (operation_row 50 "w" 0 "authorize" (some "1") none none none))
unfolding find operation_row
fork_workflow-copies_example =
    fork_workflow-copies 900 "u" fork_input running_and_done (plain_row "w" pending) 0 refl refl
      refl

-- A workflow that runs, an old one that has succeeded, with a step, and a newer one.
abbrev three_ages : Db
three_ages =
    record (db_of (
      plain_row "w" pending
      ∷ plain_row "d" success
      ∷ record (plain_row "e" success) { created_at = 200 }
      ∷ [])) {
        operation_outputs = operation_row 50 "d" 0 "authorize" (some "1") none none none ∷ [];
      }

three_ages-UniqueIds : UniqueIds three_ages
unfolding count
three_ages-UniqueIds id = ground (
  arith,
  eq_iff "w" id,
  eq_iff "d" id,
  eq_iff "e" id,
  eq_iff "w" "d",
  eq_iff "w" "e",
  eq_iff "d" "e",
)

-- One row is to be kept, and nothing is said of age.
garbage_collect-exact_example :
    (row_of "d" (garbage_collect none (some 1) three_ages).1 ≡ none)
    × (operation_of "d" 0 (garbage_collect none (some 1) three_ages).1 ≡ none)
unfolding find count
garbage_collect-exact_example =
    garbage_collect-exact none (some 1) "d" 0 three_ages (plain_row "d" success)
      three_ages-UniqueIds refl
