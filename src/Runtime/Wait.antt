-- ===== src/Runtime/Wait.antt =====
-- runtime/context.rs: `sleep`, `recv` and `get_event`, whose deadlines are recorded. The clock is
-- given at each place that reads it. What other processes do to the database while this one waits is
-- a list of changes, one for each poll; the deadline passes at its end.
pub mod Deadline
pub mod Receive
use dbos_transact_rs.Prelude.{
  ℕ, ◌+◌, ◌-◌, String, Bool, true, false, Option, none, some, List, [], ◌∷◌, is_some, find, or_else,
  format, if◌then◌else◌,
}
use mathlib.Core.Option
use dbos_transact_rs.Error.Code.{DbosErrorCode}
use dbos_transact_rs.Error.DbosError
use dbos_transact_rs.Error.DbosError.{DbosError, step_execution, conflicting_id}
use dbos_transact_rs.Exec.{
  Result, ok, err, Exec, pure, raise, lift, transaction, write, ◌>>=◌, ◌>>◌,
}
use dbos_transact_rs.Db.Tables.{Db}
use dbos_transact_rs.Db.Steps.{
  RecordedOperation, check_operation_execution, record_operation_result,
}
use dbos_transact_rs.Db.Notifications.{
  Message, is_waiting, consume_oldest_notification, select_workflow_event, is_event,
}
use dbos_transact_rs.Serialize.Codec.{Codec, portable_name}
use dbos_transact_rs.Runtime.Session.{Session, next_step_id, on_db}
use dbos_transact_rs.Runtime.Durable.{topic_or_null}

module _ (end_codec : Codec ℕ) where
  -- Another process recorded the deadline first: read it back.
  unfoldable pub read_back : String → ℕ → DbosError → Exec Db ℕ
  read_back id step e = do
    found ← check_operation_execution id step "DBOS.sleep"
    lift (elim found [ none ↦ err e | some rec ↦ end_codec.decode rec.output rec.serialization ])

  unfoldable pub settle_end : String → ℕ → ℕ → Result (Unit {0}) → Exec Db ℕ
  settle_end id step deadline (ok _) = pure deadline
  settle_end id step deadline (err e) =
      if DbosError.is e DbosErrorCode.conflicting_id then read_back id step e else raise e

  -- `between` is what other processes do between the check and the record.
  unfoldable pub record_end : ℕ → (Db → Db) → String → ℕ → ℕ → Exec Db ℕ
  record_end now between id step duration db =
      (lift (end_codec.encode (now + duration)) >>= λ text. λ db'.
          let (r, db'') =
            record_operation_result now id step "DBOS.sleep" (some text) none none
              (some portable_name) (between db') in
          settle_end id step (now + duration) r db'')
        db

  unfoldable pub sleep_end : ℕ → (Db → Db) → String → ℕ → ℕ → Option RecordedOperation → Exec Db ℕ
  sleep_end now between id step duration none = record_end now between id step duration
  sleep_end now between id step duration (some rec) =
      lift (end_codec.decode rec.output rec.serialization)

  -- The time that is left at `later`; the wait itself is left out.
  unfoldable pub record_sleep : ℕ → ℕ → (Db → Db) → String → ℕ → ℕ → Exec Db ℕ
  record_sleep now later between id step duration = do
    found ← check_operation_execution id step "DBOS.sleep"
    deadline ← sleep_end now between id step duration found
    pure (deadline - later)

module _ {W : Type 0} (end_codec : Codec ℕ) where
  unfoldable pub sleep : ℕ → ℕ → (Db → Db) → Bool → ℕ → Exec (Session W) ℕ
  sleep now later between within_step duration s =
      (if within_step
          then raise
              (step_execution s.state.workflow_id "DBOS.sleep" "cannot call Sleep within a step")
          else do
            step ← next_step_id
            on_db (record_sleep end_codec now later between s.state.workflow_id step duration))
        s

-- Polling until a test holds or the deadline passes.
unfoldable pub poll_until : (Db → Bool) → List (Db → Db) → Db → Db
poll_until test [] db = db
poll_until test (change ∷ changes) db =
    let rest = poll_until test changes (change db) in if test db then db else rest

-- The serialization that is recorded with a result.
abbrev pub serialization_of : Option Message → String
serialization_of none = portable_name
serialization_of (some (text, none)) = portable_name
serialization_of (some (text, some serialization)) = serialization

abbrev pub text_of : Option Message → Option String
text_of none = none
text_of (some (text, _)) = some text

-- Consuming and recording, in one transaction.
unfoldable pub take_message : ℕ → String → ℕ → String → Exec Db (Option Message)
take_message now id step topic = transaction do
  consumed ← consume_oldest_notification id topic
  record_operation_result now id step "DBOS.recv" (text_of consumed) none none
      (some (serialization_of consumed))
  pure consumed

module _ {M : Type 0} (codec : Codec M) where
  unfoldable pub decode_optional : RecordedOperation → Result (Option M)
  decode_optional rec = elim rec.error [
    | some text ↦ err (codec.decode_error text rec.serialization)
    | none ↦ elim rec.output [
      | none ↦ ok none
      | some text ↦ elim (codec.decode (some text) rec.serialization) [
        | ok v ↦ ok (some v)
        | err e ↦ err e
      ]
    ]
  ]

  -- The value that the caller gets.
  unfoldable pub delivered : Option Message → Result (Option M)
  delivered none = ok none
  delivered (some (text, serialization)) =
      elim (codec.decode (some text) (or_else serialization (some portable_name))) [
        | ok v ↦ ok (some v)
        | err e ↦ err e
      ]

module _ {M : Type 0} (end_codec : Codec ℕ) (codec : Codec M) where
  -- The wait for a message, and its delivery.
  unfoldable pub receive :
      ℕ → ℕ → (Db → Db) → List (Db → Db) → String → ℕ → ℕ → String → ℕ → Exec Db (Option M)
  receive now later between changes id step sleep_step topic timeout = do
    remaining ← record_sleep end_codec now later between id sleep_step timeout
    write (poll_until (λ db. is_some (find (is_waiting id topic) db.notifications)) changes)
    consumed ← take_message now id step topic
    lift (delivered codec consumed)

  -- `occupied` tells the mailboxes for which a `recv` of this process waits already.
  unfoldable pub recv_at :
      ℕ
      → ℕ
      → (Db → Db)
      → List (Db → Db)
      → (String → Bool)
      → String
      → ℕ
      → ℕ
      → String
      → ℕ
      → Option RecordedOperation
      → Exec Db (Option M)
  recv_at now later between changes occupied id step sleep_step topic timeout (some rec) =
      lift (decode_optional codec rec)
  recv_at now later between changes occupied id step sleep_step topic timeout none =
      if occupied (format (id ∷ "::" ∷ topic ∷ []))
      then raise (conflicting_id id)
      else receive now later between changes id step sleep_step topic timeout

  unfoldable pub read_event :
      ℕ → ℕ → (Db → Db) → List (Db → Db) → String → ℕ → ℕ → String → String → ℕ → Exec Db (Option M)
  read_event now later between changes id step sleep_step target key timeout = do
    remaining ← record_sleep end_codec now later between id sleep_step timeout
    write (poll_until (λ db. is_some (find (is_event target key) db.workflow_events)) changes)
    found ← select_workflow_event target key
    record_operation_result now id step "DBOS.getEvent" (text_of found) none none
        (some (serialization_of found))
    lift (delivered codec found)

  unfoldable pub get_event_at :
      ℕ
      → ℕ
      → (Db → Db)
      → List (Db → Db)
      → String
      → ℕ
      → ℕ
      → String
      → String
      → ℕ
      → Option RecordedOperation
      → Exec Db (Option M)
  get_event_at now later between changes id step sleep_step target key timeout (some rec) =
      lift (decode_optional codec rec)
  get_event_at now later between changes id step sleep_step target key timeout none =
      read_event now later between changes id step sleep_step target key timeout

module _ {W M : Type 0} (end_codec : Codec ℕ) (codec : Codec M) where
  -- Two step ids: one for the message, one for the deadline.
  unfoldable pub recv :
      ℕ
      → ℕ
      → (Db → Db)
      → List (Db → Db)
      → (String → Bool)
      → Bool
      → Option String
      → ℕ
      → Exec (Session W) (Option M)
  recv now later between changes occupied within_step topic timeout s =
      (if within_step
          then raise
              (step_execution s.state.workflow_id "DBOS.recv" "cannot call Recv within a step")
          else do
            step ← next_step_id
            sleep_step ← next_step_id
            found ← on_db (check_operation_execution s.state.workflow_id step "DBOS.recv")
            on_db (
                recv_at end_codec codec now later between changes occupied s.state.workflow_id step
                  sleep_step (topic_or_null topic) timeout found))
        s

  unfoldable pub get_event :
      ℕ → ℕ → (Db → Db) → List (Db → Db) → Bool → String → String → ℕ → Exec (Session W) (Option M)
  get_event now later between changes within_step target key timeout s =
      (if within_step
          then raise (
              step_execution s.state.workflow_id "DBOS.getEvent"
                "cannot call GetEvent within a step")
          else do
            step ← next_step_id
            sleep_step ← next_step_id
            found ← on_db (check_operation_execution s.state.workflow_id step "DBOS.getEvent")
            on_db (
                get_event_at end_codec codec now later between changes s.state.workflow_id step
                  sleep_step target key timeout found))
        s
