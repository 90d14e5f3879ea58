-- ===== src/Db/Streams.antt =====
-- db/streams.rs: the entries of a stream, in the order of their offsets.
pub mod Append
pub mod Race
use dbos_transact_rs.Prelude.{
  ℕ, suc, ◌+◌, String, Bool, true, false, not, ◌&&◌, ◌||◌, Option, none, some, List, [], ◌∷◌, ◌++◌,
  ◌==◌, ltb, leb, max, select, find, insert, is_some, if◌then◌else◌, format,
}
use dbos_transact_rs.Prelude.Sort.{sort_by}
use dbos_transact_rs.Error.Sqlx.{foreign_key_violation}
use dbos_transact_rs.Error.DbosError.{DbosError, from_sqlx, other, non_existent_workflow}
use dbos_transact_rs.Exec.{Result, ok, err, Exec, query}
use dbos_transact_rs.Db.WorkflowStatusType.{pending, enqueued, same_status}
use dbos_transact_rs.Db.Tables.{Db, StreamRow}
use dbos_transact_rs.Db.View.{row_of}
use dbos_transact_rs.Serialize.Codec.{Codec}

abbrev pub stream_closed_sentinel : String
stream_closed_sentinel = "__DBOS_STREAM_CLOSED__"

-- workflow_uuid = $1 AND key = $2
unfoldable pub is_stream : String → String → StreamRow → Bool
is_stream id key r = r.workflow_uuid == id && r.key == key

-- The sentinel of a stream
unfoldable pub is_closing : String → String → StreamRow → Bool
is_closing id key r = is_stream id key r && r.value == stream_closed_sentinel

-- COALESCE(MAX(offset), -1) + 1
unfoldable pub next_offset : String → String → List StreamRow → ℕ
next_offset id key [] = 0
next_offset id key (r ∷ rows) =
    let rest = next_offset id key rows in
    if is_stream id key r then max (suc r.offset) rest else rest

abbrev pub stream_row : String → ℕ → String → String → Option String → ℕ → StreamRow
stream_row id step key value serialization offset = record {
  workflow_uuid = id;
  key = key;
  value = value;
  offset = offset;
  function_id = step;
  serialization = serialization;
}

unfoldable pub already_closed : String → DbosError
already_closed key = other (format ("stream '" ∷ key ∷ "' is already closed" ∷ []))

-- The offset is new, so of the table's keys only the foreign key can be violated.
unfoldable pub write_stream_entry :
    String → ℕ → String → String → Option String → Exec Db (Unit {0})
write_stream_entry id step key value serialization db =
    if is_some (find (is_closing id key) db.streams)
    then (err (already_closed key), db)
    else if is_some (row_of id db)
    then (
      ok tt,
      record db {
        streams =
            insert (stream_row id step key value serialization (next_offset id key db.streams))
              db.streams;
      },
    )
    else (err (from_sqlx foreign_key_violation), db)

pub record StreamEntry : Type 0 where
  pub value : String
  pub offset : ℕ
  pub serialization : Option String

abbrev pub entry_of : StreamRow → StreamEntry
entry_of r = record { value = r.value; offset = r.offset; serialization = r.serialization }

-- ORDER BY offset ASC
unfoldable pub by_offset : StreamRow → StreamRow → Bool
by_offset a b = ltb a.offset b.offset

-- workflow_uuid = $1 AND key = $2 AND offset >= $3
unfoldable pub is_from : String → String → ℕ → StreamRow → Bool
is_from id key from r = is_stream id key r && leb from r.offset

-- The loop over the rows: it ends at the sentinel.
unfoldable pub collect : List StreamRow → List StreamEntry × Bool
collect [] = ([], false)
collect (r ∷ rows) =
    let rest = collect rows in
    if r.value == stream_closed_sentinel then ([], true) else (entry_of r ∷ rest.0, rest.1)

unfoldable pub stream_rows : String → String → ℕ → Db → List StreamRow
stream_rows id key from db = sort_by by_offset (select (is_from id key from) db.streams)

unfoldable pub read_stream_entries : String → String → ℕ → Exec Db (List StreamEntry × Bool)
read_stream_entries id key from = query λ db. collect (stream_rows id key from db)

module _ {V : Type 0} (codec : Codec V) where
  unfoldable pub decode_entries : List StreamEntry → Result (List V)
  decode_entries [] = ok []
  decode_entries (e ∷ es) =
      let rest = decode_entries es in
      elim (codec.decode (some e.value) e.serialization) [
        | err x ↦ err x
        | ok v ↦ elim rest [ err x ↦ err x | ok vs ↦ ok (v ∷ vs) ]
      ]

-- The offset behind the entries
unfoldable pub after_entries : ℕ → List StreamEntry → ℕ
after_entries current [] = current
after_entries current (e ∷ es) = after_entries (suc e.offset) es

module _ {V : Type 0} (codec : Codec V) where
  -- Each poll reads the entries of one state of the database, and then the status of the workflow in
  -- a later one. The polls end where the list does.
  unfoldable pub read_stream_blocking :
      String → String → Bool → ℕ → List V → List (Db × Db) → Option (Result (List V × Bool))
  read_stream_blocking id key snapshot current values [] = none
  read_stream_blocking id key snapshot current values ((db, later) ∷ polls) =
      let (entries, closed) = collect (stream_rows id key current db) in
      elim (decode_entries codec entries) [
        | err e ↦ some (err e)
        | ok vs ↦
            let rest =
              read_stream_blocking id key snapshot (after_entries current entries) (values ++ vs)
                polls in
            if closed
            then some (ok (values ++ vs, true))
            else if snapshot
            then some (ok (values ++ vs, false))
            else elim (row_of id later) [
              | none ↦ some (err (non_existent_workflow id))
              | some r ↦
                  if same_status r.status pending || same_status r.status enqueued
                  then rest
                  else some (ok (values ++ vs, true))
            ]
      ]
