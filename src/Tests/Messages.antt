-- ===== src/Tests/Messages.antt =====
-- Mailboxes, events and streams of one workflow.
use dbos_transact_rs.Prelude.{
  true, ◌≡◌, refl, false, none, some, [], ◌∷◌, arith, find, count, select, eq_iff,
}
use dbos_transact_rs.Prelude.Sort.{sort_by}
use dbos_transact_rs.Exec.{ok, err}
use dbos_transact_rs.Db.WorkflowStatusType.{pending}
use dbos_transact_rs.Db.Tables.{Db}
use dbos_transact_rs.Db.Notifications.{
  insert_notification, consume_oldest_notification, waiting, is_waiting, older, notification_row,
}
use dbos_transact_rs.Db.Notifications.Mailbox.{
  mailbox, UniqueMessages, insert_notification-mailbox, consume_oldest_notification-mailbox,
}
use dbos_transact_rs.Db.Streams.{
  stream_closed_sentinel, next_offset, write_stream_entry, read_stream_entries,
  read_stream_blocking, already_closed, is_stream, is_closing, collect, stream_rows, by_offset,
  is_from,
}
use dbos_transact_rs.Db.Streams.Append.{
  IsDense, write_stream_entry-read, write_stream_entry-IsDense, write_stream_entry-closed,
}
use dbos_transact_rs.Db.Streams.Race.{ended, read_stream_blocking-misses}
use dbos_transact_rs.Tests.Codecs.{text_codec}
use dbos_transact_rs.Tests.Fixtures.{plain_row, db_of}

abbrev alone : Db
alone = db_of (plain_row "w" pending ∷ [])

-- Two messages, the second older.
abbrev pub two_messages : Db
two_messages = record alone {
  notifications =
      notification_row 7 "m1" "w" "t" "late" "portable_json"
      ∷ notification_row 5 "m2" "w" "t" "early" "portable_json"
      ∷ [];
}

insert_notification-mailbox_example :
    ((insert_notification 9 "m3" "w" "t" "last" "portable_json" two_messages).0 ≡ ok tt)
    × (mailbox "w" "t" (insert_notification 9 "m3" "w" "t" "last" "portable_json" two_messages).1
        ≡ ("early", some "portable_json")
          ∷ ("late", some "portable_json")
          ∷ ("last", some "portable_json")
          ∷ [])
unfolding find mailbox waiting is_waiting older notification_row select sort_by
insert_notification-mailbox_example =
    insert_notification-mailbox 9 "m3" "w" "t" "last" "portable_json" two_messages refl refl
      (refl, (refl, tt))

pub two_messages-UniqueMessages : UniqueMessages two_messages
unfolding count notification_row
two_messages-UniqueMessages uuid =
    ground (arith, eq_iff "m1" uuid, eq_iff "m2" uuid, eq_iff "m1" "m2")

consume_oldest_notification-mailbox_example :
    ((consume_oldest_notification "w" "t" two_messages).0
      ≡ ok (some ("early", some "portable_json")))
    × (mailbox "w" "t" (consume_oldest_notification "w" "t" two_messages).1
        ≡ ("late", some "portable_json") ∷ [])
unfolding mailbox waiting is_waiting older notification_row select sort_by
consume_oldest_notification-mailbox_example =
    consume_oldest_notification-mailbox "w" "t" two_messages two_messages-UniqueMessages

abbrev one_entry : Db
one_entry = record alone {
  streams =
      record {
        workflow_uuid = "w";
        key = "log";
        value = "\"a\"";
        offset = 0;
        function_id = 1;
        serialization = some "portable_json";
      }
      ∷ [];
}

write_stream_entry-read_example :
    ((write_stream_entry "w" 2 "log" "\"b\"" none one_entry).0 ≡ ok tt)
    × ((read_stream_entries "w" "log" 1 (write_stream_entry "w" 2 "log" "\"b\"" none one_entry).1).0
        ≡ ok (record { value = "\"b\""; offset = 1; serialization = none } ∷ [], false))
unfolding find next_offset is_stream is_closing collect stream_rows by_offset is_from select sort_by
write_stream_entry-read_example =
    write_stream_entry-read "w" 2 "log" "\"b\"" none 1 one_entry refl refl (omega arith)

one_entry-IsDense : IsDense "w" "log" one_entry
unfolding count is_stream next_offset
one_entry-IsDense k = ground arith

write_stream_entry-IsDense_example :
    IsDense "w" "log" (write_stream_entry "w" 2 "log" "\"b\"" none one_entry).1
write_stream_entry-IsDense_example =
    write_stream_entry-IsDense "w" 2 "log" "\"b\"" none "w" "log" one_entry one_entry-IsDense

write_stream_entry-closed_example :
    write_stream_entry "w" 4 "log" "\"c\"" none
      (write_stream_entry "w" 3 "log" stream_closed_sentinel none one_entry).1
    ≡ (
      err (already_closed "log"),
      (write_stream_entry "w" 3 "log" stream_closed_sentinel none one_entry).1,
    )
write_stream_entry-closed_example =
    write_stream_entry-closed "w" 3 4 "log" "\"c\"" none none one_entry accepted
  where
    accepted : (write_stream_entry "w" 3 "log" stream_closed_sentinel none one_entry).0 ≡ ok tt
    accepted = unfold write_stream_entry find is_closing is_stream in refl

abbrev after_end : Db
after_end = ended "w" "log" "\"b\"" 2 1 900 none (some "1") one_entry

read_stream_blocking-misses_example :
    (read_stream_blocking text_codec "w" "log" false 1 [] ((one_entry, after_end) ∷ [])
      ≡ some (ok ([], true)))
    × ((read_stream_entries "w" "log" 1 after_end).0
        ≡ ok (record { value = "\"b\""; offset = 1; serialization = none } ∷ [], false))
unfolding find next_offset is_stream is_closing collect stream_rows by_offset is_from select sort_by
read_stream_blocking-misses_example =
    read_stream_blocking-misses "w" "log" "\"b\"" 2 1 900 none (some "1") one_entry text_codec []
      (plain_row "w" pending) refl refl refl refl (omega arith) refl
