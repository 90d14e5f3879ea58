-- ===== src/Db/Management/Retire.antt =====
-- db/management.rs: `cancel_workflows`, `resume_workflows`, `delete_workflows`, `cancel_all_before`
-- and `garbage_collect`.
use dbos_transact_rs.Prelude.{
  ℕ, ◌-◌, String, Bool, true, not, ◌&&◌, ◌||◌, Option, none, some, List, [], ◌∷◌, map, ltb, max,
  select, find, update, delete, drop, any_eq, if◌then◌else◌,
}
use mathlib.Core.Option
use dbos_transact_rs.Prelude.Sort.{sort_by}
use dbos_transact_rs.Exec.{ok, Exec, write}
use dbos_transact_rs.Db.WorkflowStatusType.{
  pending, enqueued, delayed, success, error, cancelled, same_status,
}
use dbos_transact_rs.Db.Row.{WorkflowRow}
use dbos_transact_rs.Db.Tables.{Db}
use dbos_transact_rs.Db.Management.List.{ListWorkflowsFilter, no_filter, listed_rows, listed_before}

-- The default queue resumed workflows are placed on.
abbrev pub internal_queue_name : String
internal_queue_name = "_dbos_internal_queue"

-- workflow_uuid = ANY(ids)
abbrev pub has_any_id : List String → WorkflowRow → Bool
has_any_id ids r = any_eq ids r.workflow_uuid

-- The ids that exist
abbrev pub existing : List String → Db → List String
existing ids db = map (λ r. r.workflow_uuid) (select (has_any_id ids) db.workflow_status)

unfoldable pub may_cancel : List String → WorkflowRow → Bool
may_cancel ids r =
    has_any_id ids r
    && not (
        same_status r.status success
        || same_status r.status error
        || same_status r.status cancelled)

unfoldable pub cancel : ℕ → WorkflowRow → WorkflowRow
cancel now r = record r {
  status = cancelled;
  updated_at = now;
  completed_at = some now;
  started_at_epoch_ms = none;
  queue_name = none;
  deduplication_id = none;
}

unfoldable pub cancel_workflows : ℕ → List String → Exec Db (List String)
cancel_workflows now ids db = (
  ok (existing ids db),
  record db { workflow_status = update (may_cancel ids) (cancel now) db.workflow_status },
)

unfoldable pub may_resume : List String → WorkflowRow → Bool
may_resume ids r =
    has_any_id ids r && not (same_status r.status success || same_status r.status error)

unfoldable pub resume : ℕ → String → WorkflowRow → WorkflowRow
resume now queue_name r = record r {
  status = enqueued;
  queue_name = some queue_name;
  recovery_attempts = 0;
  workflow_deadline_epoch_ms = none;
  deduplication_id = none;
  started_at_epoch_ms = none;
  updated_at = now;
  completed_at = none;
}

unfoldable pub resume_workflows : ℕ → List String → String → Exec Db (List String)
resume_workflows now ids queue_name db = (
  ok (existing ids db),
  record db {
    workflow_status = update (may_resume ids) (resume now queue_name) db.workflow_status;
  },
)

-- DELETE of workflows, and what ON DELETE CASCADE deletes with them.
unfoldable pub delete_where : (WorkflowRow → Bool) → Db → Db
delete_where p db =
    let gone = any_eq (map (λ r. r.workflow_uuid) (select p db.workflow_status)) in
    record {
      workflow_status = delete p db.workflow_status;
      operation_outputs = delete (λ r. gone r.workflow_uuid) db.operation_outputs;
      notifications = delete (λ r. gone r.destination_uuid) db.notifications;
      workflow_events = delete (λ r. gone r.workflow_uuid) db.workflow_events;
      workflow_events_history = delete (λ r. gone r.workflow_uuid) db.workflow_events_history;
      streams = delete (λ r. gone r.workflow_uuid) db.streams;
    }

unfoldable pub delete_workflows : List String → Exec Db (Unit {0})
delete_workflows ids = write (delete_where (has_any_id ids))

abbrev pub live_before : ℕ → ListWorkflowsFilter
live_before cutoff = record no_filter {
  status = some (pending ∷ enqueued ∷ delayed ∷ []);
  end_time = some cutoff;
}

-- No ids, no update.
abbrev pub cancel_listed : ℕ → List String → Db → Db
cancel_listed now [] db = db
cancel_listed now (id ∷ ids) db = (cancel_workflows now (id ∷ ids) db).1

unfoldable pub cancel_all_before : ℕ → ℕ → Exec Db (Unit {0})
cancel_all_before now cutoff =
    write
      λ db. cancel_listed now (map (λ r. r.workflow_uuid) (listed_rows (live_before cutoff) db)) db

-- The creation time of the row at `threshold - 1`, the latest first.
unfoldable pub rows_cutoff : ℕ → Db → Option ℕ
rows_cutoff threshold db =
    Option.map (λ r. r.created_at)
      (find (λ _. true) (drop (threshold - 1) (sort_by (listed_before true) db.workflow_status)))

-- The more recent of two bounds.
abbrev pub latest : Option ℕ → Option ℕ → Option ℕ
latest cutoff none = cutoff
latest none (some rc) = some rc
latest (some c) (some rc) = some (max c rc)

unfoldable pub effective_cutoff : Option ℕ → Option ℕ → Db → Option ℕ
effective_cutoff cutoff none db = cutoff
effective_cutoff cutoff (some threshold) db =
    if ltb 0 threshold then latest cutoff (rows_cutoff threshold db) else cutoff

unfoldable pub is_garbage : ℕ → WorkflowRow → Bool
is_garbage cutoff r =
    ltb r.created_at cutoff
    && not (
        same_status r.status pending
        || same_status r.status enqueued
        || same_status r.status delayed)

unfoldable pub collect_before : Option ℕ → Db → Db
collect_before none db = db
collect_before (some cutoff) db = delete_where (is_garbage cutoff) db

-- A threshold is not negative.
unfoldable pub garbage_collect : Option ℕ → Option ℕ → Exec Db (Unit {0})
garbage_collect cutoff threshold =
    write λ db. collect_before (effective_cutoff cutoff threshold db) db
