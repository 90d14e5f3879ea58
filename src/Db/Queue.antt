-- ===== src/Db/Queue.antt =====
-- db/queue.rs: promotion of delayed work, clearing of assignments, partitions and the dequeue.
pub mod Dequeue
use dbos_transact_rs.Prelude.{
  ℕ, String, Bool, true, false, ◌&&◌, Option, none, some, List, [], ◌∷◌, leb, ltb, eqb, count,
  update, select, column_eq, is_some, any_eq, if◌then◌else◌, not,
}
use dbos_transact_rs.Exec.{Exec, write, ok, err}
use dbos_transact_rs.Db.WorkflowStatusType.{pending, enqueued, delayed, same_status}
use dbos_transact_rs.Db.Row.{WorkflowRow, has_id}
use dbos_transact_rs.Db.Tables.{Db}

abbrev has_elapsed : ℕ → Option ℕ → Bool
has_elapsed now none = false
has_elapsed now (some t) = leb t now

-- status = DELAYED AND delay_until_epoch_ms <= now
abbrev pub is_due : ℕ → WorkflowRow → Bool
is_due now r = same_status r.status delayed && has_elapsed now r.delay_until_epoch_ms

unfoldable pub promote : WorkflowRow → WorkflowRow
promote r = record r { status = enqueued }

unfoldable pub transition_delayed_workflows : ℕ → Exec Db (Unit {0})
transition_delayed_workflows now =
    write λ db. record db { workflow_status = update (is_due now) promote db.workflow_status }

-- workflow_uuid = id AND queue_name IS NOT NULL AND status = PENDING
abbrev pub is_assigned : String → WorkflowRow → Bool
is_assigned id r = has_id id r && is_some r.queue_name && same_status r.status pending

unfoldable pub requeue : WorkflowRow → WorkflowRow
requeue r = record r { status = enqueued; started_at_epoch_ms = none }

-- True if a row was affected.
unfoldable pub clear_queue_assignment : String → Exec Db Bool
clear_queue_assignment id db = (
  ok (ltb 0 (count (is_assigned id) db.workflow_status)),
  record db { workflow_status = update (is_assigned id) requeue db.workflow_status },
)

-- SELECT DISTINCT over a column, NULLs left out.
unfoldable distinct_keys : List WorkflowRow → List String
distinct_keys [] = []
distinct_keys (r ∷ rs) =
    let rest = distinct_keys rs in
    elim r.queue_partition_key [ none ↦ rest | some k ↦ if any_eq rest k then rest else k ∷ rest ]

unfoldable pub get_queue_partitions : String → Exec Db (List String)
unfolding distinct_keys
get_queue_partitions queue_name db = (
  ok (
      distinct_keys (
        select (λ r. column_eq r.queue_name queue_name && same_status r.status enqueued)
          db.workflow_status)),
  db,
)
