-- ===== src/Db/Streams/Append.antt =====
-- A stream is an append-only log that is closed once: `write_stream_entry` and `read_stream_entries`.
use dbos_transact_rs.Prelude.{
  ℕ, suc, ◌≤◌, String, ◌≡◌, refl, ◌∙◌, ap, true, false, ◌&&◌, Option, none, some, List, [], ◌∷◌,
  ◌++◌, arith, eq_iff, eq_refl, ◌==◌, eqb, ltb, max, find, find-insert, or_else, count,
  count-insert, select, select-insert, insert, is_some, Bool-cases, ◌⊎◌, inl, inr, All,
  if◌then◌else◌,
}
use dbos_transact_rs.Prelude.Sort.{sort_by, sort_by-insert_last, All-sort_by}
use dbos_transact_rs.Error.DbosError.{DbosError}
use dbos_transact_rs.Exec.{ok, err}
use dbos_transact_rs.Db.Tables.{Db, StreamRow}
use dbos_transact_rs.Db.View.{row_of}
use dbos_transact_rs.Db.Streams.{
  stream_closed_sentinel, is_stream, is_closing, next_offset, stream_row, already_closed,
  write_stream_entry, StreamEntry, entry_of, by_offset, is_from, collect, stream_rows,
  read_stream_entries,
}

-- The entries that a read returns.
abbrev pub entries_of : String → String → ℕ → Db → List StreamEntry
entries_of id key from db = (collect (stream_rows id key from db)).0

-- A row that is not the sentinel.
abbrev IsOpen : StreamRow → Type 0
IsOpen r = (r.value == stream_closed_sentinel) ≡ false

module _ (id key : String) (from : ℕ) where
  -- The rows of the stream lie below its next offset.
  below_next :
      (x : StreamRow) (rows : List StreamRow)
      → next_offset id key rows ≤ x.offset
      → All (λ r. by_offset x r ≡ false) (select (is_from id key from) rows)
  unfolding next_offset by_offset is_from select
  below_next x [] h = tt
  below_next x (r ∷ rows) h = elim (Bool-cases (is_from id key from r)) [
    | inl e ↦ rw e (ground (arith, h), below_next x rows (ground (arith, h)))
    | inr e ↦ rw e (below_next x rows (ground (arith, h)))
  ]

  IsOpen-rows :
      (rows : List StreamRow)
      → find (is_closing id key) rows ≡ none
      → All IsOpen (select (is_from id key from) rows)
  unfolding find is_closing is_from select
  IsOpen-rows [] h = tt
  IsOpen-rows (r ∷ rows) h = elim (Bool-cases (is_from id key from r)) [
    | inl e ↦ rw e (ground (arith, h), IsOpen-rows rows (ground (arith, h)))
    | inr e ↦ rw e (IsOpen-rows rows (ground (arith, h)))
  ]

collect-append :
    (x : StreamRow) (rows : List StreamRow)
    → All IsOpen rows
    → collect (rows ++ x ∷ []) ≡ (
        if x.value == stream_closed_sentinel
        then ((collect rows).0, true)
        else ((collect rows).0 ++ entry_of x ∷ [], false))
unfolding collect
collect-append x [] h = refl
collect-append x (r ∷ rows) h = rw (h.0) (ground (arith, collect-append x rows h.1))

module _ (id : String) (step : ℕ) (key value : String) (serialization : Option String) (from : ℕ)
    (db : Db) where
  abbrev written : StreamRow
  written = stream_row id step key value serialization (next_offset id key db.streams)

  abbrev old_rows : List StreamRow
  old_rows = select (is_from id key from) db.streams

  sorted-written :
      from ≤ next_offset id key db.streams
      → sort_by by_offset (select (is_from id key from) (insert written db.streams))
        ≡ sort_by by_offset old_rows ++ written ∷ []
  sorted-written le =
      ap (sort_by by_offset) (select-insert (is_from id key from) written db.streams ∙ rw seen refl)
      ∙ sort_by-insert_last by_offset written old_rows
          (below_next id key from written db.streams (omega arith))
    where
      seen : is_from id key from written ≡ true
      seen = unfold is_from is_stream in ground (arith, eq_refl id, eq_refl key)

  -- Writing to a stream of a workflow that exists, where the stream is not closed, succeeds. A read
  -- from any offset up to the next one then returns what it returned before, followed by the new
  -- entry at the next offset; or, if the sentinel was written, the same entries and that the stream
  -- is closed.
  pub write_stream_entry-read :
      is_some (row_of id db) ≡ true
      → find (is_closing id key) db.streams ≡ none
      → from ≤ next_offset id key db.streams
      → ((write_stream_entry id step key value serialization db).0 ≡ ok tt)
        × ((read_stream_entries id key from
              (write_stream_entry id step key value serialization db).1).0
            ≡ ok (
                if value == stream_closed_sentinel then (entries_of id key from db, true) else (
                  entries_of id key from db
                      ++ record {
                        value = value;
                        offset = next_offset id key db.streams;
                        serialization = serialization;
                      }
                        ∷ [],
                  false,
                )))
  unfolding write_stream_entry read_stream_entries
  write_stream_entry-read there unclosed le =
      rw (unclosed, there)
        (
          refl,
          ap ok (
              unfold stream_rows in
              (ap collect (sorted-written le)
                ∙ collect-append written (sort_by by_offset old_rows) (
                    All-sort_by by_offset IsOpen old_rows
                      (IsOpen-rows id key from db.streams unclosed)))),
        )

-- A write is refused and changes nothing, or puts in its row.
write_stream_entry-cases :
    (id : String) (step : ℕ) (key value : String) (serialization : Option String) (db : Db)
    → ((e : DbosError) × (write_stream_entry id step key value serialization db ≡ (err e, db)))
      ⊎ (write_stream_entry id step key value serialization db ≡ (
        ok tt,
        record db {
          streams =
              insert
                (stream_row id step key value serialization (next_offset id key db.streams))
                db.streams;
        },
      ))
unfolding write_stream_entry
write_stream_entry-cases id step key value serialization db =
    elim (Bool-cases (is_some (find (is_closing id key) db.streams))) [
      | inl e ↦ rw e (inl (_, refl))
      | inr e ↦ rw e (elim (Bool-cases (is_some (row_of id db))) [
        | inl h ↦ rw h (inr refl)
        | inr h ↦ rw h (inl (_, refl))
      ])
    ]

-- Each offset below the next one is that of one entry of the stream, and no entry has another.
abbrev pub IsDense : String → String → Db → Type 0
IsDense id key db =
    (k : ℕ)
    → count (λ r. is_stream id key r && eqb r.offset k) db.streams
      ≡ (if ltb k (next_offset id key db.streams) then 1 else 0)

next_offset-insert :
    (id key : String) (x : StreamRow) (rows : List StreamRow)
    → next_offset id key (insert x rows) ≡ (
        if is_stream id key x
        then max (suc x.offset) (next_offset id key rows)
        else next_offset id key rows)
unfolding next_offset insert
next_offset-insert id key x [] = ground arith
next_offset-insert id key x (r ∷ rows) = ground (arith, next_offset-insert id key x rows)

-- Every write keeps the offsets of every stream dense: 0, 1, 2, … with none twice.
pub write_stream_entry-IsDense :
    (id : String) (step : ℕ) (key value : String) (serialization : Option String)
    (id' key' : String) (db : Db)
    → IsDense id' key' db
    → IsDense id' key' (write_stream_entry id step key value serialization db).1
write_stream_entry-IsDense id step key value serialization id' key' db dense k =
    elim (write_stream_entry-cases id step key value serialization db) [
      | inl (e, refused) ↦ rw refused (dense k)
      | inr accepted ↦ rw accepted (
          rw
            (count-insert (λ r. is_stream id' key' r && eqb r.offset k)
              (stream_row id step key value serialization (next_offset id key db.streams))
              db.streams)
            (rw
              (next_offset-insert id' key'
                (stream_row id step key value serialization (next_offset id key db.streams))
                db.streams)
              (unfold is_stream in ground (arith, dense k, same_stream))))
    ]
  where
    same_stream :
        (id == id' && key == key') ≡ true
        → next_offset id key db.streams ≡ next_offset id' key' db.streams
    same_stream h =
        let p : id ≡ id' = ground (arith, eq_iff id id', h) in
        let q : key ≡ key' = ground (arith, eq_iff key key', h) in cc (p, q)

-- A closed stream stays closed: once the sentinel is written, every further write to the stream is
-- refused and changes nothing.
pub write_stream_entry-closed :
    (id : String) (step step' : ℕ) (key value : String) (s s' : Option String) (db : Db)
    → (write_stream_entry id step key stream_closed_sentinel s db).0 ≡ ok tt
    → write_stream_entry id step' key value s'
        (write_stream_entry id step key stream_closed_sentinel s db).1
      ≡ (err (already_closed key), (write_stream_entry id step key stream_closed_sentinel s db).1)
write_stream_entry-closed id step step' key value s s' db accepted =
    elim (write_stream_entry-cases id step key stream_closed_sentinel s db) [
      | inl (e, refused) ↦ cc
      | inr added ↦ rw added (
          unfold write_stream_entry in
          rw
            (find-insert (is_closing id key)
              (stream_row id step key stream_closed_sentinel s (next_offset id key db.streams))
              db.streams)
            (rw closing (rw (or_else-some (find (is_closing id key) db.streams) _) refl)))
    ]
  where
    closing :
        is_closing id key
          (stream_row id step key stream_closed_sentinel s (next_offset id key db.streams))
        ≡ true
    closing = unfold is_closing is_stream in ground (arith, eq_refl id, eq_refl key)

    or_else-some : (o : Option StreamRow) (x : StreamRow) → is_some (or_else o (some x)) ≡ true
    or_else-some none x = refl
    or_else-some (some _) x = refl
