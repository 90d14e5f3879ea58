-- ===== src/Runtime/Durable.antt =====
-- runtime/context.rs: `send`, `set_event`, `write_stream` and `close_stream`. Each is a durable step
-- whose effect and record commit in one transaction.
pub mod Once
pub mod Send
use dbos_transact_rs.Prelude.{
  ℕ, String, Bool, true, false, Option, none, some, ◌==◌, is_some, if◌then◌else◌,
}
use dbos_transact_rs.Error.DbosError.{step_execution}
use dbos_transact_rs.Exec.{Result, ok, err, Exec, pure, raise, lift, transaction, ◌>>=◌, ◌>>◌}
use dbos_transact_rs.Db.Tables.{Db}
use dbos_transact_rs.Db.Steps.{check_operation_execution, record_operation_result}
use dbos_transact_rs.Db.Notifications.{
  null_topic, insert_notification, upsert_workflow_event, insert_workflow_event_history,
}
use dbos_transact_rs.Db.Streams.{stream_closed_sentinel, write_stream_entry}
use dbos_transact_rs.Serialize.Codec.{Codec, portable_name}
use dbos_transact_rs.Runtime.Session.{Session, next_step_id, on_db}

-- `topic.filter(|t| !t.is_empty()).unwrap_or(NULL_TOPIC)`
unfoldable pub topic_or_null : Option String → String
topic_or_null none = null_topic
topic_or_null (some t) = if t == "" then null_topic else t

-- The effect and the record, in one transaction.
unfoldable pub commit_effect :
    ℕ → String → ℕ → String → String → Exec Db (Unit {0}) → Exec Db (Unit {0})
commit_effect now id step name unit effect =
    transaction (
      effect >> record_operation_result now id step name (some unit) none none (some portable_name))

module _ {W : Type 0} (unit_codec : Codec (Unit {0})) where
  -- What is left to do where nothing is recorded: encode, then commit.
  unfoldable pub perform :
      ℕ → ℕ → String → (ℕ → Result (Exec Db (Unit {0}))) → Exec (Session W) (Unit {0})
  perform now step name effect s =
      (do
        run ← lift (effect step)
        unit ← lift (unit_codec.encode tt)
        on_db (commit_effect now s.state.workflow_id step name unit run))
        s

  -- The three operations share their guard, their step id and their replay.
  unfoldable pub durable :
      ℕ → Bool → String → String → (ℕ → Result (Exec Db (Unit {0}))) → Exec (Session W) (Unit {0})
  durable now within_step name refusal effect s =
      (if within_step then raise (step_execution s.state.workflow_id name refusal) else do
        step ← next_step_id
        found ← on_db (check_operation_execution s.state.workflow_id step name)
        if is_some found then pure tt else perform now step name effect)
        s

  unfoldable pub write_stream_raw :
      ℕ → Bool → String → String → String → Option String → Exec (Session W) (Unit {0})
  write_stream_raw now within_step key name value serialization s =
      durable now within_step name "cannot write to a stream within a step"
        (λ step. ok (write_stream_entry s.state.workflow_id step key value serialization)) s

  unfoldable pub close_stream : ℕ → Bool → String → Exec (Session W) (Unit {0})
  close_stream now within_step key =
      write_stream_raw now within_step key "DBOS.closeStream" stream_closed_sentinel none

module _ {W M : Type 0} (unit_codec : Codec (Unit {0})) (codec : Codec M) where
  -- `uuid` is the random id of the message.
  unfoldable pub send : ℕ → String → Bool → String → M → Option String → Exec (Session W) (Unit {0})
  send now uuid within_step destination message topic =
      durable unit_codec now within_step "DBOS.send" "cannot call Send within a step" λ step.
        elim (codec.encode message) [
          | err e ↦ err e
          | ok text ↦
              ok (insert_notification now uuid destination (topic_or_null topic) text portable_name)
        ]

  unfoldable pub set_event : ℕ → Bool → String → M → Exec (Session W) (Unit {0})
  set_event now within_step key value s =
      durable unit_codec now within_step "DBOS.setEvent" "cannot call SetEvent within a step"
        (λ step. elim (codec.encode value) [
          | err e ↦ err e
          | ok text ↦ ok (
              upsert_workflow_event s.state.workflow_id key text portable_name
              >> insert_workflow_event_history s.state.workflow_id step key text portable_name)
        ])
        s

  -- The value is encoded first, before the guard and the step id.
  unfoldable pub write_stream : ℕ → Bool → String → M → Exec (Session W) (Unit {0})
  write_stream now within_step key value = do
    text ← lift (codec.encode value)
    write_stream_raw unit_codec now within_step key "DBOS.writeStream" text (some portable_name)
