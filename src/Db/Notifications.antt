-- ===== src/Db/Notifications.antt =====
-- db/notifications.rs: mailboxes of messages, and the events of a workflow.
pub mod Mailbox
pub mod Events
use dbos_transact_rs.Prelude.{
  ℕ, String, Bool, true, false, not, ◌&&◌, Option, none, some, List, ◌==◌, eqb, ltb, select, find,
  update, insert, is_some, if◌then◌else◌, ◌⊎◌, inl, inr,
}
use dbos_transact_rs.Prelude.Sort.{sort_by}
use mathlib.Core.Option
use dbos_transact_rs.Error.Sqlx
use dbos_transact_rs.Error.Sqlx.{SqlxError, unique_violation, foreign_key_violation}
use dbos_transact_rs.Error.DbosError.{from_sqlx, non_existent_workflow}
use dbos_transact_rs.Exec.{Result, ok, err, Exec, query}
use dbos_transact_rs.Db.Tables.{Db, NotificationRow, EventRow, EventHistoryRow}
use dbos_transact_rs.Db.View.{row_of}

abbrev pub null_topic : String
null_topic = "__null__topic__"

-- A message of a workflow: its text and its serialization.
abbrev pub Message : Type 0
Message = String × Option String

abbrev pub has_uuid : String → NotificationRow → Bool
has_uuid uuid r = r.message_uuid == uuid

-- The INSERT with the table's primary and foreign key.
unfoldable pub insert_message : NotificationRow → Db → (Unit {0} ⊎ SqlxError) × Db
insert_message r db =
    if is_some (find (has_uuid r.message_uuid) db.notifications)
    then (inr unique_violation, db)
    else if is_some (row_of r.destination_uuid db)
    then (inl tt, record db { notifications = insert r db.notifications })
    else (inr foreign_key_violation, db)

-- A missing destination is a foreign-key violation.
unfoldable pub map_message_error : String → Unit {0} ⊎ SqlxError → Result (Unit {0})
unfolding Sqlx.is_foreign_key_violation
map_message_error destination (inl _) = ok tt
map_message_error destination (inr e) =
    if Sqlx.is_foreign_key_violation e
    then err (non_existent_workflow destination)
    else err (from_sqlx e)

unfoldable pub notification_row : ℕ → String → String → String → String → String → NotificationRow
notification_row now uuid destination topic message serialization = record {
  destination_uuid = destination;
  topic = topic;
  message = message;
  serialization = some serialization;
  message_uuid = uuid;
  created_at_epoch_ms = now;
  consumed = false;
}

-- `uuid` is the random id that the code draws.
unfoldable pub insert_notification :
    ℕ → String → String → String → String → String → Exec Db (Unit {0})
insert_notification now uuid destination topic message serialization db =
    let (r, db') =
      insert_message (notification_row now uuid destination topic message serialization) db in
    (map_message_error destination r, db')

-- destination_uuid = $1 AND topic = $2 AND consumed = false
unfoldable pub is_waiting : String → String → NotificationRow → Bool
is_waiting destination topic r =
    r.destination_uuid == destination && r.topic == topic && not r.consumed

unfoldable pub notification_exists_unconsumed : String → String → Exec Db Bool
notification_exists_unconsumed destination topic =
    query λ db. is_some (find (is_waiting destination topic) db.notifications)

-- ORDER BY created_at_epoch_ms ASC
unfoldable pub older : NotificationRow → NotificationRow → Bool
older a b = ltb a.created_at_epoch_ms b.created_at_epoch_ms

-- The rows of a mailbox that wait, the oldest first.
unfoldable pub waiting : String → String → Db → List NotificationRow
waiting destination topic db =
    sort_by older (select (is_waiting destination topic) db.notifications)

-- The subquery `oldest_entry`
unfoldable pub oldest_entry : String → String → Db → Option String
oldest_entry destination topic db =
    Option.map (λ r. r.message_uuid) (find (λ _. true) (waiting destination topic db))

unfoldable pub mark_consumed : NotificationRow → NotificationRow
mark_consumed r = record r { consumed = true }

abbrev pub message_of : NotificationRow → Message
message_of r = (r.message, r.serialization)

unfoldable pub consume_entry : Option String → Exec Db (Option Message)
consume_entry none db = (ok none, db)
consume_entry (some uuid) db = (
  ok (Option.map message_of (find (has_uuid uuid) db.notifications)),
  record db { notifications = update (has_uuid uuid) mark_consumed db.notifications },
)

unfoldable pub consume_oldest_notification : String → String → Exec Db (Option Message)
consume_oldest_notification destination topic db =
    consume_entry (oldest_entry destination topic db) db

-- The primary key of `workflow_events`.
abbrev pub is_event : String → String → EventRow → Bool
is_event id key r = r.workflow_uuid == id && r.key == key

unfoldable pub set_value : String → String → EventRow → EventRow
set_value value serialization r = record r { value = value; serialization = some serialization }

-- The INSERT … ON CONFLICT DO UPDATE; the workflow that it refers to must be there.
unfoldable pub upsert_workflow_event : String → String → String → String → Exec Db (Unit {0})
upsert_workflow_event id key value serialization db =
    if is_some (find (is_event id key) db.workflow_events)
    then (
      ok tt,
      record db {
        workflow_events =
            update (is_event id key) (set_value value serialization) db.workflow_events;
      },
    )
    else if is_some (row_of id db)
    then (
      ok tt,
      record db {
        workflow_events =
            insert
              (record {
                workflow_uuid = id;
                key = key;
                value = value;
                serialization = some serialization;
              })
              db.workflow_events;
      },
    )
    else (err (from_sqlx foreign_key_violation), db)

abbrev pub is_history : String → ℕ → String → EventHistoryRow → Bool
is_history id step key r = r.workflow_uuid == id && eqb r.function_id step && r.key == key

unfoldable pub set_history : String → String → EventHistoryRow → EventHistoryRow
set_history value serialization r = record r { value = value; serialization = some serialization }

unfoldable pub insert_workflow_event_history :
    String → ℕ → String → String → String → Exec Db (Unit {0})
insert_workflow_event_history id step key value serialization db =
    if is_some (find (is_history id step key) db.workflow_events_history)
    then (
      ok tt,
      record db {
        workflow_events_history =
            update (is_history id step key) (set_history value serialization)
              db.workflow_events_history;
      },
    )
    else if is_some (row_of id db)
    then (
      ok tt,
      record db {
        workflow_events_history =
            insert
              (record {
                workflow_uuid = id;
                function_id = step;
                key = key;
                value = value;
                serialization = some serialization;
              })
              db.workflow_events_history;
      },
    )
    else (err (from_sqlx foreign_key_violation), db)

unfoldable pub select_workflow_event : String → String → Exec Db (Option Message)
select_workflow_event id key =
    query
      λ db. Option.map (λ r. (r.value, r.serialization)) (find (is_event id key) db.workflow_events)
