-- ===== src/Runtime/Wait/Deadline.antt =====
-- A durable sleep: the deadline is that of the first call, however often the workflow restarts.
use dbos_transact_rs.Prelude.{
  ℕ, ◌+◌, ◌-◌, String, ◌≡◌, refl, ◌∙◌, none, some, arith, eq_refl, find-insert, insert,
}
use dbos_transact_rs.Error.Code.{same_code}
use dbos_transact_rs.Error.DbosError.{conflicting_id, new_with, is}
use dbos_transact_rs.Exec.{ok}
use dbos_transact_rs.Db.Tables.{Db, OperationRow}
use dbos_transact_rs.Db.Steps.{operation_of, is_operation, operation_row}
use dbos_transact_rs.Db.Steps.Laws.{
  IsLive, check-fresh, check-recorded, record-fresh, record-conflict,
}
use dbos_transact_rs.Serialize.Codec.{Codec, portable_name}
use dbos_transact_rs.Runtime.Wait.{record_sleep, sleep_end, record_end, settle_end, read_back}

abbrev pub unchanged : Db → Db
unchanged db = db

module _ (end_codec : Codec ℕ) (id : String) (step : ℕ) (db : Db) (live : IsLive id db) where
  -- Where the deadline is recorded, a call reads it and changes nothing.
  record_sleep-recorded :
      (now later duration deadline : ℕ) (text : String) (between : Db → Db) (r : OperationRow)
      → operation_of id step db ≡ some r
      → r.function_name ≡ "DBOS.sleep"
      → r.output ≡ some text
      → r.serialization ≡ some portable_name
      → end_codec.encode deadline ≡ ok text
      → record_sleep end_codec now later between id step duration db ≡ (ok (deadline - later), db)
  unfolding record_sleep sleep_end
  record_sleep-recorded now later duration deadline text between r found named output portable e =
      rw (check-recorded id step "DBOS.sleep" db live r found named)
        (rw (output, portable) (rw (end_codec.decode-encode deadline text e) refl))

module _ (end_codec : Codec ℕ) (id : String) (step now duration : ℕ) (text : String) (db : Db)
    (live : IsLive id db) (unrecorded : operation_of id step db ≡ none)
    (encoded : end_codec.encode (now + duration) ≡ ok text) where
  abbrev deadline_row : OperationRow
  deadline_row = operation_row now id step "DBOS.sleep" (some text) none none (some portable_name)

  abbrev with_deadline : Db
  with_deadline = record db { operation_outputs = insert deadline_row db.operation_outputs }

  record_sleep-first :
      (later : ℕ)
      → record_sleep end_codec now later unchanged id step duration db
        ≡ (ok (now + duration - later), with_deadline)
  unfolding record_sleep sleep_end record_end settle_end
  record_sleep-first later = rw (check-fresh id step "DBOS.sleep" db live unrecorded) (
      rw encoded (
        rw
          (record-fresh now id step "DBOS.sleep" (some text) none none (some portable_name) db live
            unrecorded)
          refl))

  deadline_found : operation_of id step with_deadline ≡ some deadline_row
  unfolding operation_row
  deadline_found =
      find-insert (is_operation id step) deadline_row db.operation_outputs
      ∙ rw unrecorded (ground (arith, eq_refl id))

-- A durable sleep: the first call records the deadline `now + duration`. Every later call at the
-- step, at whatever time and with whatever duration, reads that deadline: it waits for what is left
-- of it, nothing if it has passed, and changes nothing.
pub record_sleep-resumes :
    (end_codec : Codec ℕ) (id : String) (step now later duration : ℕ) (text : String) (db : Db)
    (now' later' duration' : ℕ) (between : Db → Db)
    → IsLive id db
    → operation_of id step db ≡ none
    → end_codec.encode (now + duration) ≡ ok text
    → ((record_sleep end_codec now later unchanged id step duration db).0
        ≡ ok (now + duration - later))
      × (record_sleep end_codec now' later' between id step duration'
            (record_sleep end_codec now later unchanged id step duration db).1
          ≡ (
            ok (now + duration - later'),
            (record_sleep end_codec now later unchanged id step duration db).1,
          ))
record_sleep-resumes end_codec id step now later duration text db now' later' duration' between live
      unrecorded encoded =
    rw (record_sleep-first end_codec id step now duration text db live unrecorded encoded later) (
      refl,
      record_sleep-recorded end_codec id step
          (with_deadline end_codec id step now duration text db live unrecorded encoded)
          (record { row = live.row; present = live.present; not_cancelled = live.not_cancelled })
          now' later' duration' (now + duration) text between
          (deadline_row end_codec id step now duration text db live unrecorded encoded)
          (deadline_found end_codec id step now duration text db live unrecorded encoded)
          (unfold operation_row in refl) (unfold operation_row in refl)
          (unfold operation_row in refl) encoded,
    )

-- Another process may record its deadline between the check and the record: then its deadline is
-- the one that counts, and no second one is recorded.
pub record_sleep-race :
    (end_codec : Codec ℕ) (id : String) (step now later duration deadline : ℕ) (text mine : String)
    (db : Db) (between : Db → Db) (r : OperationRow)
    → IsLive id db
    → operation_of id step db ≡ none
    → end_codec.encode (now + duration) ≡ ok mine
    → IsLive id (between db)
    → operation_of id step (between db) ≡ some r
    → r.function_name ≡ "DBOS.sleep"
    → r.output ≡ some text
    → r.serialization ≡ some portable_name
    → end_codec.encode deadline ≡ ok text
    → record_sleep end_codec now later between id step duration db
      ≡ (ok (deadline - later), between db)
unfolding record_sleep sleep_end record_end settle_end read_back conflicting_id new_with is
    same_code
record_sleep-race end_codec id step now later duration deadline text mine db between r live
      unrecorded encoded live' found named output portable e =
    rw (check-fresh id step "DBOS.sleep" db live unrecorded) (
      rw encoded (
        rw
          (record-conflict now id step "DBOS.sleep" (some mine) none none (some portable_name)
            (between db) r found)
          (rw (check-recorded id step "DBOS.sleep" (between db) live' r found named)
            (rw (output, portable) (rw (end_codec.decode-encode deadline text e) refl)))))
