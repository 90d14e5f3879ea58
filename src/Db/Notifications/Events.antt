-- ===== src/Db/Notifications/Events.antt =====
-- Events: what `upsert_workflow_event` sets is what `select_workflow_event` reads.
use dbos_transact_rs.Prelude.{
  String, ◌≡◌, refl, ◌∙◌, Bool, true, ◌&&◌, Option, none, some, arith, eq_iff, ◌==◌, inl, inr, find,
  find-update, find-insert, find-holds, update, insert, is_some, Option-cases, List, apply_if,
  or_else, if◌then◌else◌, ap,
}
use mathlib.Core.Option
use dbos_transact_rs.Exec.{ok}
use dbos_transact_rs.Db.Tables.{Db, EventRow}
use dbos_transact_rs.Db.View.{row_of}
use dbos_transact_rs.Db.Notifications.{
  Message, is_event, set_value, upsert_workflow_event, select_workflow_event,
}

-- Two event keys of the table.
abbrev pub same_event : String → String → String → String → Bool
same_event id key id' key' = id == id' && key == key'

abbrev read : EventRow → Message
read r = (r.value, r.serialization)

-- The value that the rows have for an event.
abbrev pub event_of : String → String → List EventRow → Option Message
event_of id key rows = Option.map read (find (is_event id key) rows)

module _ (id key value serialization : String) where
  abbrev set_in : String → String → List EventRow → Option Message
  set_in id' key' rows =
      if same_event id key id' key'
      then some (value, some serialization)
      else event_of id' key' rows

  event_of-update :
      (id' key' : String) (rows : List EventRow) (r : EventRow)
      → find (is_event id key) rows ≡ some r
      → event_of id' key' (update (is_event id key) (set_value value serialization) rows)
        ≡ set_in id' key' rows
  event_of-update id' key' rows r e =
      ap (Option.map read) (
        find-update (is_event id' key') (is_event id key) (set_value value serialization)
          (λ x. unfold set_value in refl) rows)
      ∙ at_row (find (is_event id' key') rows) refl
    where
      at_row :
          (o : Option EventRow)
          → find (is_event id' key') rows ≡ o
          → Option.map read
              (Option.map (apply_if (is_event id key) (set_value value serialization)) o)
            ≡ (if same_event id key id' key'
                then some (value, some serialization)
                else Option.map read o)
      at_row none h = ground (arith, eq_iff id id', eq_iff key key', e, h)
      at_row (some x) h =
          unfold set_value in
          ground (
            arith,
            find-holds (is_event id' key') rows x h,
            eq_iff x.workflow_uuid id',
            eq_iff x.key key',
            eq_iff x.workflow_uuid id,
            eq_iff x.key key,
            eq_iff id id',
            eq_iff key key',
          )

  abbrev new_event : EventRow
  new_event = record {
    workflow_uuid = id;
    key = key;
    value = value;
    serialization = some serialization;
  }

  event_of-insert :
      (id' key' : String) (rows : List EventRow)
      → find (is_event id key) rows ≡ none
      → event_of id' key' (insert new_event rows) ≡ set_in id' key' rows
  event_of-insert id' key' rows e =
      ap (Option.map read) (find-insert (is_event id' key') new_event rows)
      ∙ at_row (find (is_event id' key') rows) refl
    where
      at_row :
          (o : Option EventRow)
          → find (is_event id' key') rows ≡ o
          → Option.map read
              (or_else o (if same_event id key id' key' then some new_event else none))
            ≡ (if same_event id key id' key'
                then some (value, some serialization)
                else Option.map read o)
      at_row none h = ground arith
      at_row (some x) h = ground (arith, eq_iff id id', eq_iff key key', e, h)

  -- Setting an event of a workflow that exists succeeds. Afterwards that event has the new value,
  -- and every other event, of this workflow or another, has the value that it had.
  pub upsert_workflow_event-select :
      (id' key' : String) (db : Db)
      → is_some (row_of id db) ≡ true
      → ((upsert_workflow_event id key value serialization db).0 ≡ ok tt)
        × ((select_workflow_event id' key'
              (upsert_workflow_event id key value serialization db).1).0
            ≡ ok (
                if same_event id key id' key'
                then some (value, some serialization)
                else event_of id' key' db.workflow_events))
  unfolding upsert_workflow_event select_workflow_event
  upsert_workflow_event-select id' key' db there =
      elim (Option-cases (find (is_event id key) db.workflow_events)) [
        | inl e ↦ rw (e, there) (refl, ap ok (event_of-insert id' key' db.workflow_events e))
        | inr (r, e) ↦ rw e (refl, ap ok (event_of-update id' key' db.workflow_events r e))
      ]
