-- ===== src/Db/Management/Lifecycle.antt =====
-- Operations of several executors and administrators, in any order: a workflow that has succeeded or
-- failed keeps its outcome.
use dbos_transact_rs.Prelude.{ℕ, String, ◌≡◌, ◌≢◌, Bool, true, ◌||◌, Option, some, List}
use dbos_transact_rs.Prelude.Int.{ℤ}
use dbos_transact_rs.Db.WorkflowStatusType.{WorkflowStatusType, success, error, same_status}
use dbos_transact_rs.Db.Row.{WorkflowRow}
use dbos_transact_rs.Db.Tables.{Db}
use dbos_transact_rs.Db.View.{row_of}
use dbos_transact_rs.Db.Status.Insert.{InsertWorkflowInput, insert_workflow_status}
use dbos_transact_rs.Db.Status.Outcome.{update_workflow_outcome}
use dbos_transact_rs.Db.Queue.{transition_delayed_workflows, clear_queue_assignment}
use dbos_transact_rs.Db.Queue.Dequeue.{DequeueInput, dequeue_workflows}
use dbos_transact_rs.Db.Management.Retire.{cancel_workflows, resume_workflows}
use dbos_transact_rs.Db.Management.Fork.{ForkWorkflowInput, fork_workflow}

-- The outcome of a workflow: its state, output and error.
abbrev pub outcome : WorkflowRow → WorkflowStatusType × Option String × Option String
outcome r = (r.status, r.output, r.error)

abbrev pub is_final : WorkflowStatusType → Bool
is_final s = same_status s success || same_status s error

-- The workflow is there, with this final outcome.
pub record Settled (id : String) (o : WorkflowStatusType × Option String × Option String) (db : Db)
    : Type 0 where
  pub row : WorkflowRow
  pub present : row_of id db ≡ some row
  pub ended : outcome row ≡ o
  pub final : is_final row.status ≡ true

-- One operation on the database. No executor reports an outcome of the workflow `id` again.
pub data Step (id : String) : Db → Db → Type 0 where
  inserts :
      (i : InsertWorkflowInput) (max_retries : ℤ) (db : Db)
      → Step id db (insert_workflow_status i max_retries db).1
  reports :
      (now : ℕ) (k : String) (new : WorkflowStatusType) (output failure : Option String) (db : Db)
      → k ≢ id
      → Step id db (update_workflow_outcome now k new output failure db).1
  promotes : (now : ℕ) (db : Db) → Step id db (transition_delayed_workflows now db).1
  requeues : (k : String) (db : Db) → Step id db (clear_queue_assignment k db).1
  dequeues :
      (locked : WorkflowRow → Bool) (i : DequeueInput) (now : ℕ) (db : Db)
      → Step id db (dequeue_workflows locked i now db).1
  cancels : (now : ℕ) (ids : List String) (db : Db) → Step id db (cancel_workflows now ids db).1
  resumes :
      (now : ℕ) (ids : List String) (queue : String) (db : Db)
      → Step id db (resume_workflows now ids queue db).1
  forks :
      (now : ℕ) (uuid : String) (i : ForkWorkflowInput) (db : Db)
      → Step id db (fork_workflow now uuid i db).1

-- Any number of operations, one after the other.
pub data Reaches (id : String) : Db → Db → Type 0 where
  stop : (db : Db) → Reaches id db db
  next : {db db' db'' : Db} → Step id db db' → Reaches id db' db'' → Reaches id db db''
