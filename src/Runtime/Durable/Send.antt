-- ===== src/Runtime/Durable/Send.antt =====
-- `send` delivers a message once, across crashes and replays, or not at all.
use dbos_transact_rs.Prelude.{
  ℕ, suc, String, ◌≡◌, refl, sym, ap, ◌∙◌, true, false, Option, none, some, [], ◌∷◌, ◌++◌, find,
  insert, is_some, select, All,
}
use dbos_transact_rs.Error.Sqlx
use dbos_transact_rs.Error.DbosError.{non_existent_workflow}
use dbos_transact_rs.Exec.{Result, ok, err}
use dbos_transact_rs.Db.Tables.{Db}
use dbos_transact_rs.Db.View.{row_of}
use dbos_transact_rs.Db.Steps.{operation_of}
use dbos_transact_rs.Db.Steps.Laws.{IsLive}
use dbos_transact_rs.Db.Notifications.{
  has_uuid, insert_message, insert_notification, map_message_error, notification_row, is_waiting,
  older, waiting,
}
use dbos_transact_rs.Db.Notifications.Mailbox.{mailbox, insert_notification-mailbox}
use dbos_transact_rs.Serialize.Codec.{Codec, portable_name}
use dbos_transact_rs.Runtime.Session.{Session, with_next}
use dbos_transact_rs.Runtime.Durable.{topic_or_null, send}
use dbos_transact_rs.Runtime.Durable.Once.{
  performed, durable-performs, durable-replays, durable-fails,
}

module _ (now : ℕ) (uuid destination topic text : String) (db : Db) where
  abbrev with_message : Db
  with_message = record db {
    notifications =
        insert (notification_row now uuid destination topic text portable_name) db.notifications;
  }

  delivers :
      is_some (row_of destination db) ≡ true
      → find (has_uuid uuid) db.notifications ≡ none
      → insert_notification now uuid destination topic text portable_name db ≡ (ok tt, with_message)
  unfolding insert_notification insert_message notification_row map_message_error
  delivers there new = rw (new, there) refl

  mailbox-with_message :
      is_some (row_of destination db) ≡ true
      → find (has_uuid uuid) db.notifications ≡ none
      → All
          (λ r. older (notification_row now uuid destination topic text portable_name) r ≡ false)
          (select (is_waiting destination topic) db.notifications)
      → mailbox destination topic with_message
        ≡ mailbox destination topic db ++ (text, some portable_name) ∷ []
  mailbox-with_message there new newest =
      sym (ap (λ (p : Result (Unit {0}) × Db). mailbox destination topic p.1) (delivers there new))
      ∙ (insert_notification-mailbox now uuid destination topic text portable_name db there new
          newest).1

  refuses :
      row_of destination db ≡ none
      → find (has_uuid uuid) db.notifications ≡ none
      → insert_notification now uuid destination topic text portable_name db
        ≡ (err (non_existent_workflow destination), db)
  unfolding insert_notification insert_message notification_row map_message_error
      Sqlx.is_foreign_key_violation Sqlx.sqlstate
  refuses absent new = rw (new, absent) refl

module _ {W M : Type 0} (unit_codec : Codec (Unit {0})) (codec : Codec M) (now : ℕ)
    (uuid destination text unit : String) (message : M) (topic : Option String)
    (s : Session W) where
  sends :
      (live : IsLive s.state.workflow_id s.db)
      (unrecorded : operation_of s.state.workflow_id s.state.next_step s.db ≡ none)
      (unit_text : unit_codec.encode tt ≡ ok unit)
      → codec.encode message ≡ ok text
      → is_some (row_of destination s.db) ≡ true
      → find (has_uuid uuid) s.db.notifications ≡ none
      → send unit_codec codec now uuid false destination message topic s ≡ (
        ok tt,
        performed unit_codec now "DBOS.send" unit s live unrecorded unit_text
            (with_message now uuid destination (topic_or_null topic) text s.db),
      )
  unfolding send
  sends live unrecorded unit_text encoded there new =
      durable-performs unit_codec now "DBOS.send" unit s live unrecorded unit_text
        "cannot call Send within a step" _
        (insert_notification now uuid destination (topic_or_null topic) text portable_name)
        (rw encoded refl) (with_message now uuid destination (topic_or_null topic) text s.db)
        (delivers now uuid destination (topic_or_null topic) text s.db there new)
        (record { rows = refl; steps = refl })

  -- A live workflow that has not recorded this step sends to a workflow that exists; the message's
  -- id is new and it is not older than those that wait. The call succeeds, and the mailbox has the
  -- message at its end. When the workflow is run again and comes to this step, the call succeeds
  -- and changes nothing: the message is not sent twice, whatever the new call's arguments are.
  pub send_once :
      (now' : ℕ) (uuid' destination' : String) (message' : M) (topic' : Option String)
      → IsLive s.state.workflow_id s.db
      → operation_of s.state.workflow_id s.state.next_step s.db ≡ none
      → unit_codec.encode tt ≡ ok unit
      → codec.encode message ≡ ok text
      → is_some (row_of destination s.db) ≡ true
      → find (has_uuid uuid) s.db.notifications ≡ none
      → All
          (λ r.
            older (notification_row now uuid destination (topic_or_null topic) text portable_name) r
            ≡ false)
          (select (is_waiting destination (topic_or_null topic)) s.db.notifications)
      → let sent : Result (Unit {0}) × Session W =
          send unit_codec codec now uuid false destination message topic s in
        (sent.0 ≡ ok tt)
        × (mailbox destination (topic_or_null topic) sent.1.db
            ≡ mailbox destination (topic_or_null topic) s.db ++ (text, some portable_name) ∷ [])
        × (send unit_codec codec now' uuid' false destination' message' topic'
              (with_next s.state.next_step sent.1)
            ≡ (ok tt, sent.1))
  send_once now' uuid' destination' message' topic' live unrecorded unit_text encoded there new
        newest =
      rw (sends live unrecorded unit_text encoded there new) (
        refl,
        unfold mailbox waiting in
            (mailbox-with_message now uuid destination (topic_or_null topic) text s.db there new
              newest),
        unfold send in
            (durable-replays unit_codec now "DBOS.send" unit s live unrecorded unit_text now'
              "cannot call Send within a step" _
              (with_message now uuid destination (topic_or_null topic) text s.db)
              (record { rows = refl; steps = refl })),
      )

  -- A send to a workflow that does not exist fails, and leaves the database as it was: no message,
  -- and no record of the step.
  pub send_fails :
      IsLive s.state.workflow_id s.db
      → operation_of s.state.workflow_id s.state.next_step s.db ≡ none
      → unit_codec.encode tt ≡ ok unit
      → codec.encode message ≡ ok text
      → row_of destination s.db ≡ none
      → find (has_uuid uuid) s.db.notifications ≡ none
      → send unit_codec codec now uuid false destination message topic s
        ≡ (err (non_existent_workflow destination), with_next (suc s.state.next_step) s)
  unfolding send
  send_fails live unrecorded unit_text encoded absent new =
      durable-fails unit_codec now "DBOS.send" unit s live unrecorded unit_text
        "cannot call Send within a step" _
        (insert_notification now uuid destination (topic_or_null topic) text portable_name)
        (rw encoded refl) (non_existent_workflow destination) s.db
        (refuses now uuid destination (topic_or_null topic) text s.db absent new)
