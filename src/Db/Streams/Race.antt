-- ===== src/Db/Streams/Race.antt =====
-- What `read_stream_blocking` can miss: it reads the entries and the status one after the other.
use dbos_transact_rs.Prelude.{
  ℕ, ◌≤◌, String, ◌≡◌, refl, ◌∙◌, ap, Bool, true, false, Option, none, some, List, [], ◌∷◌, ◌++◌,
  arith, ◌==◌, find, insert,
}
use dbos_transact_rs.Exec.{Result, ok}
use dbos_transact_rs.Db.WorkflowStatusType.{pending, success}
use dbos_transact_rs.Db.Row.{WorkflowRow}
use dbos_transact_rs.Db.Tables.{Db}
use dbos_transact_rs.Db.View.{row_of}
use dbos_transact_rs.Db.Status.Outcome.{
  may_finish, finish, update_workflow_outcome, update_workflow_outcome-row,
}
use dbos_transact_rs.Db.Streams.{
  stream_closed_sentinel, is_closing, next_offset, stream_row, write_stream_entry, StreamEntry,
  collect, stream_rows, read_stream_entries, decode_entries, read_stream_blocking,
}
use dbos_transact_rs.Db.Streams.Append.{write_stream_entry-read}
use dbos_transact_rs.Serialize.Codec.{Codec}

module _ (id key value : String) (step from now : ℕ) (serialization output : Option String)
    (db : Db) where
  -- The producer writes an entry, and then succeeds.
  abbrev pub written : Db
  written = (write_stream_entry id step key value serialization db).1

  abbrev pub ended : Db
  ended = (update_workflow_outcome now id success output none written).1

  module _ (r : WorkflowRow) (running : row_of id db ≡ some r) (is_pending : r.status ≡ pending)
      (unclosed : find (is_closing id key) db.streams ≡ none) where
    row_of-written : row_of id written ≡ some r
    row_of-written = ap (λ (p : Result (Unit {0}) × Db). row_of id p.1) accepted ∙ running
      where
        accepted : write_stream_entry id step key value serialization db ≡ (
          ok tt,
          record db {
            streams =
                insert
                  (stream_row id step key value serialization (next_offset id key db.streams))
                  db.streams;
          },
        )
        accepted = unfold write_stream_entry in rw (unclosed, running) refl

    row_of-ended : row_of id ended ≡ some (finish now success output none r)
    row_of-ended =
        update_workflow_outcome-row now id success output none written
        ∙ rw row_of-written (unfold may_finish in ground (arith, is_pending))

  missed :
      {V : Type 0} (codec : Codec V) (polls : List (Db × Db)) (r : WorkflowRow)
      → row_of id db ≡ some r
      → r.status ≡ pending
      → find (is_closing id key) db.streams ≡ none
      → collect (stream_rows id key from db) ≡ ([], false)
      → read_stream_blocking codec id key false from [] ((db, ended) ∷ polls) ≡ some (ok ([], true))
  unfolding read_stream_blocking decode_entries finish
  missed codec polls r running is_pending unclosed all_read =
      rw (all_read, read_stream_blocking)
        (rw (row_of-ended r running is_pending unclosed) (rw open_stream refl))
    where
      open_stream : (collect (stream_rows id key from db)).1 ≡ false
      open_stream = ap (λ (x : List StreamEntry × Bool). x.1) all_read

  -- The outcome leaves the stream.
  ended_entries :
      (read_stream_entries id key from ended).0 ≡ (read_stream_entries id key from written).0
  unfolding update_workflow_outcome read_stream_entries stream_rows
  ended_entries = refl

  -- A reader that has read all entries of a running producer reads the status after the producer has
  -- written one more entry and succeeded. It returns that the stream is closed, and no values,
  -- although a read of the entries would now return the new one.
  pub read_stream_blocking-misses :
      {V : Type 0} (codec : Codec V) (polls : List (Db × Db)) (r : WorkflowRow)
      → row_of id db ≡ some r
      → r.status ≡ pending
      → find (is_closing id key) db.streams ≡ none
      → collect (stream_rows id key from db) ≡ ([], false)
      → from ≤ next_offset id key db.streams
      → (value == stream_closed_sentinel) ≡ false
      → (read_stream_blocking codec id key false from [] ((db, ended) ∷ polls)
          ≡ some (ok ([], true)))
        × ((read_stream_entries id key from ended).0
            ≡ ok (
              record {
                value = value;
                offset = next_offset id key db.streams;
                serialization = serialization;
              }
                  ∷ [],
              false,
            ))
  read_stream_blocking-misses codec polls r running is_pending unclosed all_read le open_value = (
    missed codec polls r running is_pending unclosed all_read,
    ended_entries
        ∙ (write_stream_entry-read id step key value serialization from db (rw running refl)
            unclosed le).1
        ∙ rw open_value (
            ap
              (λ (es : List StreamEntry × Bool). ok (
                es.0
                    ++ record {
                      value = value;
                      offset = next_offset id key db.streams;
                      serialization = serialization;
                    }
                      ∷ [],
                false,
              ))
              all_read),
  )
