-- ===== src/Client/Claimed.antt =====
-- A workflow that a client enqueues is claimed by an executor that polls its queue.
use dbos_transact_rs.Prelude.{
  ℕ, ◌≤◌, ◌<◌, String, ◌≡◌, refl, ◌∙◌, arith, Bool, true, false, not, ◌&&◌, Option, none, some,
  ◌==◌, eq_refl, count, insert, count-insert, find-insert, get_or,
}
use dbos_transact_rs.Prelude.Int.{pos}
use dbos_transact_rs.Exec.{ok}
use dbos_transact_rs.Db.Row.{WorkflowRow, has_id}
use dbos_transact_rs.Db.Tables.{Db}
use dbos_transact_rs.Db.View.{row_of}
use dbos_transact_rs.Db.Status.Insert.{
  InsertWorkflowInput, InsertResult, fresh_row, is_duplicate, upsert, upsert_found, check_conflict,
  is_dead_letter, exceeds, bury_if, insert_workflow_status,
}
use dbos_transact_rs.Db.Queue.Dequeue.{
  DequeueInput, is_candidate, partition_clause, max_tasks, dequeue_workflows,
}
use dbos_transact_rs.Db.Queue.Dequeue.Iteration.{claimed_by}
use dbos_transact_rs.Db.Queue.Dequeue.Claims.{dequeue_workflows-claims}
use dbos_transact_rs.Serialize.Serde.{Serde, Serial}
use dbos_transact_rs.Serialize.Formats.{portable}
use dbos_transact_rs.Serialize.Input.{encode_input}
use dbos_transact_rs.Runtime.Workflow.{polling}
use dbos_transact_rs.Runtime.Workflow.Enqueue.{EnqueueOptions, enqueued_handle}
use dbos_transact_rs.Client.{client_input, enqueue_encoded, enqueue}

own_partition :
    (k : Option String) (r : WorkflowRow) → r.queue_partition_key ≡ k → partition_clause k r ≡ true
unfolding partition_clause
own_partition none r h = refl
own_partition (some k) r h = rw h (eq_refl k)

-- Without a limit over all workers the number of tasks does not depend on the table.
one_more :
    (i : DequeueInput) (db : Db) (r : WorkflowRow)
    → i.global_concurrency ≡ none
    → count (is_candidate i) db.workflow_status < max_tasks i db
    → count (is_candidate i) (insert r db.workflow_status)
      ≤ max_tasks i (record db { workflow_status = insert r db.workflow_status })
unfolding max_tasks
one_more i db r g h = ground (arith, count-insert (is_candidate i) r db.workflow_status, h, g)

module _ (now : ℕ) (id owner queue name encoded : String) (opts : EnqueueOptions) (db : Db) where
  abbrev input : InsertWorkflowInput
  input = client_input now id owner queue name encoded opts

  abbrev inserted : Db
  inserted = record db { workflow_status = insert (fresh_row input) db.workflow_status }

  never : (b : Bool) → (not b && false) ≡ false
  never true = refl
  never false = refl

  no_conflict : check_conflict input (fresh_row input) ≡ ok tt
  unfolding check_conflict fresh_row client_input
  no_conflict = rw (eq_refl name) (rw (eq_refl queue) (rw (never (name == ""))))

  alive : is_dead_letter (fresh_row input) (pos 100) ≡ false
  unfolding is_dead_letter exceeds fresh_row client_input
  alive = ground arith

  abbrev outcome : InsertResult
  outcome = record {
    recovery_attempts = 0;
    status = (fresh_row input).status;
    name = name;
    queue_name = some queue;
    owner_xid = some owner;
    dlq_triggered = false;
  }

  insert_fresh :
      row_of id db ≡ none
      → is_duplicate input db.workflow_status ≡ false
      → insert_workflow_status input (pos 100) db ≡ (ok outcome, inserted)
  unfolding insert_workflow_status upsert fresh_row client_input upsert_found insert bury_if
  insert_fresh absent single = rw absent (rw single (rw no_conflict (rw alive)))

  -- The new row is found under its id.
  row_of-inserted : row_of id db ≡ none → row_of id inserted ≡ some (fresh_row input)
  unfolding fresh_row client_input
  row_of-inserted absent =
      find-insert (has_id id) (fresh_row input) db.workflow_status ∙ rw absent (rw (eq_refl id))

  -- The new row is a candidate of a dequeue of its queue and partition.
  is_candidate-fresh :
      (i : DequeueInput)
      → i.queue_name ≡ queue
      → opts.delay ≡ none
      → opts.application_version ≡ none
      → opts.queue_partition_key ≡ i.partition_key
      → is_candidate i (fresh_row input) ≡ true
  unfolding is_candidate fresh_row client_input
  is_candidate-fresh i q d v p =
      rw (own_partition i.partition_key (fresh_row input) p)
        (rw q (rw d (rw v (rw (eq_refl queue)))))

  -- The enqueue of an encoded input: one row more, and a handle on it.
  enqueue_encoded-fresh :
      (uuid : String)
      → get_or opts.workflow_id uuid ≡ id
      → row_of id db ≡ none
      → is_duplicate input db.workflow_status ≡ false
      → enqueue_encoded now uuid owner queue name encoded opts db ≡ (ok (polling id), inserted)
  unfolding enqueue_encoded enqueued_handle client_input insert
  enqueue_encoded-fresh uuid e absent single = rw e (rw (insert_fresh absent single))

module _ (J : Serde) {P : Type 0} (C : Serial P) where
  -- A client's workflow, under a new id and without a delay, a version or a deduplication conflict,
  -- is claimed by the next dequeue of its queue and partition, whatever the executor's version, if the
  -- queue has no rate limit and no limit over all workers and the worker may take one task more than
  -- there are candidates.
  pub enqueue_claimed :
      (now : ℕ) (uuid id owner queue name encoded : String) (x : P) (opts : EnqueueOptions)
      (db : Db) (i : DequeueInput) (later : ℕ) (locked : WorkflowRow → Bool)
      → encode_input J C x portable ≡ ok encoded
      → get_or opts.workflow_id uuid ≡ id
      → opts.delay ≡ none
      → opts.application_version ≡ none
      → row_of id db ≡ none
      → is_duplicate (client_input now id owner queue name encoded opts) db.workflow_status ≡ false
      → i.queue_name ≡ queue
      → opts.queue_partition_key ≡ i.partition_key
      → i.rate_limit ≡ none
      → i.global_concurrency ≡ none
      → locked (fresh_row (client_input now id owner queue name encoded opts)) ≡ false
      → count (is_candidate i) db.workflow_status < max_tasks i db
      → ((enqueue J C now uuid owner queue name x opts db).0 ≡ ok (polling id))
        × (1
            ≤ count
                (λ w. w.id == id)
                (claimed_by (
                  dequeue_workflows locked i later
                    (enqueue J C now uuid owner queue name x opts db).1)))
  unfolding enqueue
  enqueue_claimed now uuid id owner queue name encoded x opts db i later locked en eid d v absent
        single q p unlimited g l room =
      let row = fresh_row (client_input now id owner queue name encoded opts) in
      let is_in = is_candidate-fresh now id owner queue name encoded opts db i q d v p in
      rw en (
        rw (enqueue_encoded-fresh now id owner queue name encoded opts db uuid eid absent single) (
          refl,
          dequeue_workflows-claims locked i later (inserted now id owner queue name encoded opts db)
              id row unlimited g (row_of-inserted now id owner queue name encoded opts db absent)
              is_in l (one_more i db row g room),
        ))
