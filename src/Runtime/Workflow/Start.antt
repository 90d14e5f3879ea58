-- ===== src/Runtime/Workflow/Start.antt =====
-- Starting a workflow twice under one id runs its body once.
use dbos_transact_rs.Prelude.{
  ℕ, String, ◌≡◌, ◌≢◌, refl, ◌∙◌, ap, false, Option, none, some, List, arith, eq_iff, eq_refl,
  find-insert, find-absent, insert,
}
use dbos_transact_rs.Prelude.Int.{ℤ, pos, negsuc}
use dbos_transact_rs.Exec.{Result, ok}
use dbos_transact_rs.Db.WorkflowStatusType.{pending}
use dbos_transact_rs.Db.Row.{WorkflowRow, has_id}
use dbos_transact_rs.Db.Tables.{Db}
use dbos_transact_rs.Db.View.{row_of}
use dbos_transact_rs.Db.Status.Insert.{
  InsertWorkflowInput, fresh_row, is_queued, touch, is_duplicate, upsert, upsert_found,
  check_conflict, queue_conflict, is_dead_letter, exceeds, bury_if, insert_workflow_status,
}
use dbos_transact_rs.Db.Status.Insert.Laws.{insert-accepted, result_of}
use dbos_transact_rs.Runtime.Workflow.{
  WorkflowOptions, RegistryEntry, Executor, Handle, owned, polling, start_id, start_input,
  claim_start, record_child, should_skip, handle_of, start_input_workflow, start_workflow,
}

-- The input of a direct start that is not a recovery.
record IsDirect (i : InsertWorkflowInput) : Type 0 where
  is_pending : i.status ≡ pending
  no_queue : i.queue_name ≡ none
  no_dedup : i.deduplication_id ≡ none
  first_attempt : i.recovery_attempts ≡ 1
  not_counted : i.increment ≡ 0

exceeds_one : (m : ℤ) → exceeds 1 m ≡ false
unfolding exceeds
exceeds_one (pos m) = ground arith
exceeds_one (negsuc m) = refl

module _ (i : InsertWorkflowInput) (m : ℤ) (direct : IsDirect i) where
  conflict_free : (r : WorkflowRow) → r.name ≡ i.name → check_conflict i r ≡ ok tt
  unfolding check_conflict queue_conflict
  conflict_free r e = ground (arith, eq_iff r.name i.name, direct.no_queue)

  -- A row with one attempt is not buried.
  alive : (r : WorkflowRow) → r.recovery_attempts ≡ 1 → is_dead_letter r m ≡ false
  unfolding is_dead_letter
  alive r e = rw e (ground (arith, exceeds_one m))

  not_duplicate : (rows : List WorkflowRow) → is_duplicate i rows ≡ false
  unfolding is_duplicate
  not_duplicate rows =
      rw (direct.no_queue) (rw (find-absent {R = WorkflowRow} (λ _. false) (λ _. refl) rows) refl)

  abbrev started : Db → Db
  started db = record db { workflow_status = insert (fresh_row i) db.workflow_status }

  insert-fresh :
      (db : Db)
      → row_of i.workflow_id db ≡ none
      → insert_workflow_status i m db ≡ (ok (result_of (fresh_row i) false), started db)
  unfolding insert_workflow_status upsert upsert_found bury_if
  insert-fresh db absent =
      rw (absent, upsert)
        (rw (not_duplicate db.workflow_status) (
          rw (conflict_free (fresh_row i) (unfold fresh_row in refl))
            (rw (alive (fresh_row i) (unfold fresh_row in direct.first_attempt)) refl)))

  fresh-row :
      (db : Db)
      → row_of i.workflow_id db ≡ none
      → row_of i.workflow_id (started db) ≡ some (fresh_row i)
  unfolding fresh_row
  fresh-row db absent =
      find-insert (has_id i.workflow_id) (fresh_row i) db.workflow_status
      ∙ rw absent (ground (arith, eq_refl i.workflow_id))

  -- The first start owns the body.
  first_start :
      (now : ℕ) (db : Db)
      → row_of i.workflow_id db ≡ none
      → start_input_workflow now i m none false db ≡ (ok (owned i.workflow_id), started db)
  unfolding start_input_workflow claim_start record_child handle_of should_skip fresh_row
  first_start now db absent =
      rw (insert-fresh db absent) (ground (arith, eq_refl i.owner_xid, direct.is_pending))

module _ (i j : InsertWorkflowInput) (m : ℤ) (first : IsDirect i) (second : IsDirect j)
    (same_id : j.workflow_id ≡ i.workflow_id) (same_name : j.name ≡ i.name)
    (other_owner : i.owner_xid ≢ j.owner_xid) where
  -- A second start leaves the body to the first.
  second_start :
      (now : ℕ) (db : Db)
      → row_of i.workflow_id db ≡ none
      → (start_input_workflow now j m none false (started i m first db)).0
        ≡ ok (polling j.workflow_id)
  unfolding start_input_workflow claim_start record_child handle_of should_skip
  second_start now db absent =
      rw
        (insert-accepted j m (started i m first db) (fresh_row i)
          (rw same_id (fresh-row i m first db absent))
          (conflict_free j m second (touch j (fresh_row i))
            (unfold touch fresh_row in rw same_name refl)))
        (rw
          (alive j m second (touch j (fresh_row i)) (
            unfold touch fresh_row is_queued in
            ground (arith, first.first_attempt, second.not_counted)))
          (unfold touch fresh_row in
            ground (arith, first.is_pending, eq_iff i.owner_xid j.owner_xid, other_owner)))

module _ (roles_text : List String → Option String) (x : Executor) (entry : RegistryEntry)
    (id name : String) where
  abbrev input_of : ℕ → String → Option String → WorkflowOptions → String → InsertWorkflowInput
  input_of now owner inputs opts fmt =
      start_input roles_text x now id owner name entry inputs opts none fmt false

  input-IsDirect :
      (now : ℕ) (owner : String) (inputs : Option String) (opts : WorkflowOptions) (fmt : String)
      → IsDirect (input_of now owner inputs opts fmt)
  unfolding start_input
  input-IsDirect now owner inputs opts fmt = record {
    is_pending = refl;
    no_queue = refl;
    no_dedup = refl;
    first_attempt = refl;
    not_counted = refl;
  }

  starts :
      (now : ℕ) (uuid owner : String) (inputs : Option String) (opts : WorkflowOptions)
      (fmt : String) (db : Db)
      → x.registry name ≡ some entry
      → opts.workflow_id ≡ some id
      → start_workflow roles_text x now uuid owner name inputs opts none fmt false db
        ≡ start_input_workflow now
            (input_of now owner inputs opts fmt)
            entry.max_retries
            none
            false
            db
  unfolding start_workflow start_id
  starts now uuid owner inputs opts fmt db registered named =
      rw (registered, start_workflow) (rw named refl)

-- A workflow that two executors register in the same way and that has no row yet is started twice
-- under the same id, by one executor and then by the other (or the same), in different calls, neither
-- a recovery nor a child. The first call runs its body; the second gets a handle that
-- reads the result from the database, so the body is not run again.
pub start_workflow_once :
    (roles_text : List String → Option String) (x x' : Executor) (entry : RegistryEntry)
    (now now' : ℕ) (id uuid uuid' owner owner' name fmt fmt' : String)
    (inputs inputs' : Option String) (opts opts' : WorkflowOptions) (db : Db)
    → x.registry name ≡ some entry
    → x'.registry name ≡ some entry
    → opts.workflow_id ≡ some id
    → opts'.workflow_id ≡ some id
    → row_of id db ≡ none
    → owner ≢ owner'
    → let first : Result Handle × Db =
        start_workflow roles_text x now uuid owner name inputs opts none fmt false db in
      (first.0 ≡ ok (owned id))
      × ((start_workflow roles_text x' now' uuid' owner' name inputs' opts' none fmt' false
            first.1).0
          ≡ ok (polling id))
start_workflow_once roles_text x x' entry now now' id uuid uuid' owner owner' name fmt fmt' inputs
      inputs' opts opts' db registered registered' named named' absent ne =
    let i : InsertWorkflowInput = input_of roles_text x entry id name now owner inputs opts fmt in
    let j : InsertWorkflowInput =
      input_of roles_text x' entry id name now' owner' inputs' opts' fmt' in
    let direct : IsDirect i = input-IsDirect roles_text x entry id name now owner inputs opts fmt in
    let owns : start_workflow roles_text x now uuid owner name inputs opts none fmt false db
        ≡ (ok (owned i.workflow_id), started i entry.max_retries direct db) =
      starts roles_text x entry id name now uuid owner inputs opts fmt db registered named
      ∙ first_start i entry.max_retries direct now db (unfold start_input in absent) in
    rw owns (
      unfold start_input in refl,
      ap (λ (p : Result Handle × Db). p.0)
            (starts roles_text x' entry id name now' uuid' owner' inputs' opts' fmt'
              (started i entry.max_retries direct db) registered' named')
          ∙ second_start i j entry.max_retries direct
              (input-IsDirect roles_text x' entry id name now' owner' inputs' opts' fmt')
              (unfold start_input in refl) (unfold start_input in refl) (unfold start_input in ne)
              now' db (unfold start_input in absent)
          ∙ unfold start_input in refl,
    )
