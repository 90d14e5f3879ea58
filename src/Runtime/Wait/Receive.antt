-- ===== src/Runtime/Wait/Receive.antt =====
-- What `recv` takes from its mailbox, it takes once: the message and its record commit together, and
-- a replay delivers the same.
use dbos_transact_rs.Prelude.{
  ℕ, String, ◌≡◌, refl, ◌∙◌, ap, Option, none, some, arith, eq_refl, find, find-insert, insert,
}
use dbos_transact_rs.Exec.{Result, ok}
use dbos_transact_rs.Db.Row.{has_id}
use dbos_transact_rs.Db.Tables.{Db, OperationRow}
use dbos_transact_rs.Db.Steps.{
  RecordedOperation, operation_of, is_operation, operation_row, check_operation_execution,
}
use dbos_transact_rs.Db.Steps.Laws.{IsLive, check-recorded, record-fresh}
use dbos_transact_rs.Db.Notifications.{
  Message, consume_oldest_notification, consume_entry, oldest_entry, waiting,
}
use dbos_transact_rs.Db.Notifications.Mailbox.{
  mailbox, first, rest, UniqueMessages, consume_oldest_notification-mailbox,
}
use dbos_transact_rs.Serialize.Codec.{Codec}
use dbos_transact_rs.Runtime.Wait.{
  take_message, text_of, serialization_of, decode_optional, delivered,
}

-- What is recorded of a receipt.
abbrev pub receipt : Option Message → RecordedOperation
receipt m = record { output = text_of m; error = none; serialization = some (serialization_of m) }

-- A recorded receipt is decoded to what was delivered.
decode_optional-receipt :
    {M : Type 0} (codec : Codec M) (m : Option Message)
    → decode_optional codec (receipt m) ≡ delivered codec m
unfolding decode_optional delivered
decode_optional-receipt codec none = refl
decode_optional-receipt codec (some (text, none)) = refl
decode_optional-receipt codec (some (text, some serialization)) = refl

module _ (id topic : String) (db : Db) where
  abbrev consumed : Result (Option Message) × Db
  consumed = consume_oldest_notification id topic db

  -- Consuming leaves the workflows and the steps.
  consume-rows : consumed.1.workflow_status ≡ db.workflow_status
  unfolding consume_oldest_notification
  consume-rows = entry (oldest_entry id topic db)
    where
      entry : (o : Option String) → (consume_entry o db).1.workflow_status ≡ db.workflow_status
      entry none = unfold consume_entry in refl
      entry (some uuid) = unfold consume_entry in refl

  consume-steps : consumed.1.operation_outputs ≡ db.operation_outputs
  unfolding consume_oldest_notification
  consume-steps = entry (oldest_entry id topic db)
    where
      entry : (o : Option String) → (consume_entry o db).1.operation_outputs ≡ db.operation_outputs
      entry none = unfold consume_entry in refl
      entry (some uuid) = unfold consume_entry in refl

  module _ (now step : ℕ) (live : IsLive id db) (unrecorded : operation_of id step db ≡ none)
      (unique : UniqueMessages db) where
    abbrev message : Option Message
    message = first (mailbox id topic db)

    abbrev receipt_row : OperationRow
    receipt_row =
        operation_row now id step "DBOS.recv" (text_of message) none none
          (some (serialization_of message))

    abbrev after : Db
    after = record (consumed.1) {
      operation_outputs = insert receipt_row consumed.1.operation_outputs;
    }

    IsLive-after : IsLive id consumed.1
    IsLive-after = record {
      row = live.row;
      present = ap (find (has_id id)) consume-rows ∙ live.present;
      not_cancelled = live.not_cancelled;
    }

    unrecorded_after : operation_of id step consumed.1 ≡ none
    unrecorded_after = ap (find (is_operation id step)) consume-steps ∙ unrecorded

    takes : take_message now id step topic db ≡ (ok message, after)
    takes =
        unfold take_message in
        rw ((consume_oldest_notification-mailbox id topic db unique).0) (
          rw
            (record-fresh now id step "DBOS.recv" (text_of message) none none
              (some (serialization_of message)) consumed.1 IsLive-after unrecorded_after)
            refl)

    found : operation_of id step after ≡ some receipt_row
    unfolding operation_row
    found =
        find-insert (is_operation id step) receipt_row consumed.1.operation_outputs
        ∙ rw unrecorded_after (ground (arith, eq_refl id))

    checked :
        check_operation_execution id step "DBOS.recv" after ≡ (ok (some (receipt message)), after)
    checked =
        check-recorded id step "DBOS.recv" after
          (record {
            row = IsLive-after.row;
            present = IsLive-after.present;
            not_cancelled = IsLive-after.not_cancelled;
          })
          receipt_row found (unfold operation_row in refl)
        ∙ unfold operation_row in refl

-- With unique message ids, a live workflow that has not recorded this step takes the first message of its mailbox, or nothing
-- from an empty one, and leaves the rest. The next check of the step finds what was recorded and
-- changes nothing, and a replay decodes it to what the first call delivered, a timeout included.
pub take_message_once :
    {M : Type 0} (codec : Codec M) (now : ℕ) (id : String) (step : ℕ) (topic : String) (db : Db)
    → IsLive id db
    → operation_of id step db ≡ none
    → UniqueMessages db
    → let taken : Result (Option Message) × Db = take_message now id step topic db in
      let m : Option Message = first (mailbox id topic db) in
      (taken.0 ≡ ok m)
      × (mailbox id topic taken.1 ≡ rest (mailbox id topic db))
      × (check_operation_execution id step "DBOS.recv" taken.1 ≡ (ok (some (receipt m)), taken.1))
      × (decode_optional codec (receipt m) ≡ delivered codec m)
take_message_once codec now id step topic db live unrecorded unique =
    rw (takes id topic db now step live unrecorded unique) (
      refl,
      unfold mailbox waiting in
          (unfold mailbox waiting in (consume_oldest_notification-mailbox id topic db unique).1),
      checked id topic db now step live unrecorded unique,
      decode_optional-receipt codec (first (mailbox id topic db)),
    )
