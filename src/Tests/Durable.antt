-- ===== src/Tests/Durable.antt =====
-- Messages sent and taken, and a durable sleep, of one workflow.
use dbos_transact_rs.Prelude.{◌≡◌, refl, false, none, some, [], ◌∷◌, find, select}
use dbos_transact_rs.Prelude.Sort.{sort_by}
use dbos_transact_rs.Error.DbosError.{non_existent_workflow}
use dbos_transact_rs.Exec.{ok, err}
use dbos_transact_rs.Db.Tables.{Db}
use dbos_transact_rs.Db.Steps.{check_operation_execution, operation_row}
use dbos_transact_rs.Db.WorkflowStatusType.{pending}
use dbos_transact_rs.Db.Notifications.{waiting, is_waiting, older, notification_row}
use dbos_transact_rs.Db.Notifications.Mailbox.{mailbox}
use dbos_transact_rs.Runtime.Session.{with_next}
use dbos_transact_rs.Runtime.Durable.{send, topic_or_null}
use dbos_transact_rs.Runtime.Durable.Send.{send_once, send_fails}
use dbos_transact_rs.Runtime.Wait.{record_sleep, take_message, decode_optional, delivered}
use dbos_transact_rs.Runtime.Wait.Deadline.{unchanged, record_sleep-resumes}
use dbos_transact_rs.Runtime.Wait.Receive.{receipt, take_message_once}
use dbos_transact_rs.Tests.Codecs.{text_codec, unit_codec, deadline_codec}
use dbos_transact_rs.Tests.Fixtures.{plain_row}
use dbos_transact_rs.Tests.Messages.{two_messages, two_messages-UniqueMessages}
use dbos_transact_rs.Tests.Runtime.{start, start-IsLive}

send_once_example :
    ((send unit_codec text_codec 5 "m" false "w" "hello" none start).0 ≡ ok tt)
    × (mailbox "w" "__null__topic__"
          (send unit_codec text_codec 5 "m" false "w" "hello" none start).1.db
        ≡ ("hello", some "portable_json") ∷ [])
    × (send unit_codec text_codec 8 "n" false "w" "again" none
          (with_next 0 (send unit_codec text_codec 5 "m" false "w" "hello" none start).1)
        ≡ (ok tt, (send unit_codec text_codec 5 "m" false "w" "hello" none start).1))
unfolding find mailbox waiting is_waiting older select sort_by topic_or_null
send_once_example =
    send_once unit_codec text_codec 5 "m" "w" "hello" "null" "hello" none start 8 "n" "w" "again"
      none start-IsLive refl refl refl refl refl tt

send_fails_example :
    send unit_codec text_codec 5 "m" false "nobody" "hello" none start
    ≡ (err (non_existent_workflow "nobody"), with_next 1 start)
unfolding find
send_fails_example =
    send_fails unit_codec text_codec 5 "m" "nobody" "hello" "null" "hello" none start start-IsLive
      refl refl refl refl refl

record_sleep-resumes_example :
    ((record_sleep deadline_codec 1000 1000 unchanged "w" 0 500 start.db).0 ≡ ok 500)
    × (record_sleep deadline_codec 1300 1300 unchanged "w" 0 500
          (record_sleep deadline_codec 1000 1000 unchanged "w" 0 500 start.db).1
        ≡ (ok 200, (record_sleep deadline_codec 1000 1000 unchanged "w" 0 500 start.db).1))
unfolding find
record_sleep-resumes_example =
    record_sleep-resumes deadline_codec "w" 0 1000 1000 500 "1500" start.db 1300 1300 500 unchanged
      start-IsLive refl refl

take_message_once_example :
    ((take_message 9 "w" 0 "t" two_messages).0 ≡ ok (some ("early", some "portable_json")))
    × (mailbox "w" "t" (take_message 9 "w" 0 "t" two_messages).1
        ≡ ("late", some "portable_json") ∷ [])
    × (check_operation_execution "w" 0 "DBOS.recv" (take_message 9 "w" 0 "t" two_messages).1 ≡ (
      ok (some (receipt (some ("early", some "portable_json")))),
      (take_message 9 "w" 0 "t" two_messages).1,
    ))
    × (decode_optional text_codec (receipt (some ("early", some "portable_json")))
        ≡ delivered text_codec (some ("early", some "portable_json")))
unfolding find mailbox waiting is_waiting older select sort_by notification_row
take_message_once_example =
    take_message_once text_codec 9 "w" 0 "t" two_messages
      (record { row = plain_row "w" pending; present = refl; not_cancelled = refl }) refl
      two_messages-UniqueMessages

-- Another process recorded its deadline first.
abbrev recorded_by_other : Db → Db
recorded_by_other db = record db {
  operation_outputs =
      operation_row 990 "w" 0 "DBOS.sleep" (some "1500") none none (some "portable_json") ∷ [];
}
