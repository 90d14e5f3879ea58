-- ===== src/Db/Queue/Dequeue/RateLimit.antt =====
-- The starts that a rate limit counts, before and after a dequeue.
use dbos_transact_rs.Prelude.{
  ℕ, ◌+◌, ◌≤◌, max, String, ◌≡◌, refl, sym, arith, Bool, true, false, not, ◌&&◌, ◌||◌, Bool-cases,
  Option-cases, inl, inr, Option, none, some, List, [], ◌∷◌, map, ltb, column_eq, count, count-cong,
  count-update_in, count-update_out, count-split, count_mono, count-find-none, count-find-some,
  find, length, length-append, All, take-All,
}
use dbos_transact_rs.Db.WorkflowStatusType.{enqueued, delayed, same_status}
use dbos_transact_rs.Db.Row.{WorkflowRow, has_id}
use dbos_transact_rs.Db.Tables.{Db}
use dbos_transact_rs.Db.View.{UniqueIds}
use dbos_transact_rs.Db.Queue.Dequeue.Iteration.{claimed_by, iteration_cases}
use dbos_transact_rs.Db.Queue.Dequeue.Bounds.{below_limit, rate-claim_all, UniqueIds-claim_one}
use dbos_transact_rs.Db.Queue.Dequeue.Selected.{IsKnown, line-IsKnown}
use dbos_transact_rs.Db.Queue.Dequeue.Priority.{line, selected-line}
use dbos_transact_rs.Db.Queue.Dequeue.{
  DequeueInput, started_within, partition_clause, is_recent, num_recent, reaches_limit, max_tasks,
  is_candidate, claim, is_claimable, claim_one, claim_all, dequeue_workflows,
}

-- A dequeue of a whole queue looks at every partition.
abbrev pub in_partition : Option String → Option String → Bool
in_partition none column = true
in_partition (some key) column = column_eq column key

-- Whether a time lies less than a period before now.
abbrev pub within : ℕ → ℕ → Option ℕ → Bool
within now period none = false
within now period (some t) = ltb now (t + period)

-- A start under a rate limit: a workflow of the queue and partition that is marked as limited, has
-- left the queue, and was started within the period.
abbrev pub is_start : DequeueInput → ℕ → ℕ → WorkflowRow → Bool
is_start i now period r =
    column_eq r.queue_name i.queue_name
    && in_partition i.partition_key r.queue_partition_key
    && r.rate_limited
    && not (same_status r.status enqueued || same_status r.status delayed)
    && within now period r.started_at_epoch_ms

abbrev in_line : DequeueInput → WorkflowRow → Bool
in_line i r =
    column_eq r.queue_name i.queue_name && in_partition i.partition_key r.queue_partition_key

partition_clause-in_partition :
    (key : Option String) (r : WorkflowRow)
    → partition_clause key r ≡ in_partition key r.queue_partition_key
unfolding partition_clause
partition_clause-in_partition none r = refl
partition_clause-in_partition (some key) r = refl

started_within-within :
    (now period : ℕ) (t : Option ℕ) → started_within now period t ≡ within now period t
started_within-within now period none = refl
started_within-within now period (some t) = refl

is_recent-is_start :
    (i : DequeueInput) (now period : ℕ) (r : WorkflowRow)
    → is_recent i now period r ≡ is_start i now period r
unfolding is_recent
is_recent-is_start i now period r = ground (
  arith,
  partition_clause-in_partition i.partition_key r,
  started_within-within now period r.started_at_epoch_ms,
)

module _ (i : DequeueInput) (now period : ℕ) (positive : 1 ≤ period)
    (limited : (limit : ℕ) × (i.rate_limit ≡ some (limit, period))) where
  abbrev starts : Db → ℕ
  starts db = count (is_start i now period) db.workflow_status

  -- What may be claimed under an id is of the queue and partition.
  abbrev Waits : Db → String → Type 0
  Waits db id = count (λ r. is_claimable id r && not (in_line i r)) db.workflow_status ≡ 0

  claim-is_start :
      (r : WorkflowRow) → in_line i r ≡ true → is_start i now period (claim i now r) ≡ true
  unfolding claim
  claim-is_start r h = rw (limited.1) (ground (arith, h, positive))

  length-claim :
      (id : String) (db : Db)
      → UniqueIds db
      → length (claim_one i now id db).0 ≡ count (is_claimable id) db.workflow_status
  unfolding claim_one
  length-claim id db u =
      let none_twice =
        count_mono (is_claimable id) (has_id id) (λ r h. ground arith) db.workflow_status in
      elim (Option-cases (find (is_claimable id) db.workflow_status)) [
        | inl e ↦ rw (e, claim_one) (sym (count-find-none (is_claimable id) db.workflow_status e))
        | inr (r, e) ↦
            rw (e, claim_one)
              (omega
                (arith, u id, none_twice, count-find-some (is_claimable id) db.workflow_status r e))
      ]

  starts-claim_one :
      (id : String) (db : Db)
      → UniqueIds db
      → Waits db id
      → starts (claim_one i now id db).1 ≡ starts db + length (claim_one i now id db).0
  unfolding claim_one
  starts-claim_one id db u w = omega (
    arith,
    count-update_in (is_start i now period) (is_claimable id) (in_line i) (claim i now)
        (λ r h. ground (arith, h)) (λ r h k. claim-is_start r k) db.workflow_status w,
    length-claim id db u,
  )

  Waits-claim_one :
      (other id : String) (db : Db) → Waits db id → Waits (claim_one i now other db).1 id
  unfolding claim_one claim
  Waits-claim_one other id db w = omega (
    arith,
    w,
    count-update_out (λ r. is_claimable id r && not (in_line i r)) (is_claimable other)
        (claim i now) (λ r h. ground arith) db.workflow_status,
  )

  All-Waits :
      (other : String) (ids : List String) (db : Db)
      → All (Waits db) ids
      → All (Waits (claim_one i now other db).1) ids
  All-Waits other [] db h = tt
  All-Waits other (id ∷ ids) db h = (Waits-claim_one other id db h.0, All-Waits other ids db h.1)

  -- The loop: each workflow that it claims is one start more.
  starts-claim_all :
      (recent claimed : ℕ) (ids : List String) (db : Db)
      → UniqueIds db
      → All (Waits db) ids
      → starts (claim_all i now recent claimed ids db).1
        ≡ starts db + length (claim_all i now recent claimed ids db).0
  unfolding claim_all
  starts-claim_all recent claimed [] db u w = omega arith
  starts-claim_all recent claimed (id ∷ ids) db u w =
      let (out, db') = claim_one i now id db in
      let rest = claim_all i now recent (claimed + length out) ids db' in
      elim (Bool-cases (reaches_limit i (claimed + recent))) [
        | inl e ↦ rw e (omega arith)
        | inr e ↦ rw e (
            omega (
              arith,
              length-append out rest.0,
              starts-claim_one id db u w.0,
              starts-claim_all recent (claimed + length out) ids db'
                  (UniqueIds-claim_one i now id db u) (All-Waits id ids db w.1),
            ))
      ]

module _ (i : DequeueInput) (db : Db) where
  candidate-in_line : (r : WorkflowRow) → is_candidate i r ≡ true → in_line i r ≡ true
  unfolding is_candidate
  candidate-in_line r h = ground (arith, h, partition_clause-in_partition i.partition_key r)

  known-Waits :
      (id : String)
      → UniqueIds db
      → 1 ≤ count (λ x. has_id id x && is_candidate i x) db.workflow_status
      → count (λ r. is_claimable id r && not (in_line i r)) db.workflow_status ≡ 0
  known-Waits id u h = omega (
    arith,
    h,
    u id,
    count-split (has_id id) (is_candidate i) db.workflow_status,
    count_mono (λ r. is_claimable id r && not (in_line i r))
        (λ r. has_id id r && not (is_candidate i r)) (λ r k. ground (arith, k, candidate-in_line r))
        db.workflow_status,
  )

  All-known-Waits :
      (rows : List WorkflowRow)
      → UniqueIds db
      → All (IsKnown i db) rows
      → All
          (λ id. count (λ r. is_claimable id r && not (in_line i r)) db.workflow_status ≡ 0)
          (map (λ r. r.workflow_uuid) rows)
  All-known-Waits [] u h = tt
  All-known-Waits (r ∷ rows) u h = (known-Waits r.workflow_uuid u h.0, All-known-Waits rows u h.1)

-- With unique workflow ids and a rate limit of `limit` starts in a positive period, a dequeue counts
-- each workflow that it claims as one start of the queue (and partition) within the period, and so
-- leaves at most `limit` of them, or as many as there were. A start is a row of the queue and
-- partition that is marked as rate limited, has left ENQUEUED and DELAYED, and was started later than
-- a period ago.
pub rate_limit_kept :
    (locked : WorkflowRow → Bool) (i : DequeueInput) (now limit period : ℕ) (db : Db)
    → UniqueIds db
    → i.rate_limit ≡ some (limit, period)
    → 1 ≤ period
    → (count (is_start i now period) (dequeue_workflows locked i now db).1.workflow_status
        ≡ count (is_start i now period) db.workflow_status
          + length (claimed_by (dequeue_workflows locked i now db)))
      × (count (is_start i now period) (dequeue_workflows locked i now db).1.workflow_status
          ≤ max limit (count (is_start i now period) db.workflow_status))
unfolding is_recent
rate_limit_kept locked i now limit period db u e positive = elim (iteration_cases locked i now db) [
  | inl (none_claimed, unchanged) ↦ rw (none_claimed, unchanged) (omega arith, omega arith)
  | inr (rows, s, l, c, d) ↦
      let ids : List String = map (λ (r : WorkflowRow). r.workflow_uuid) rows in
      let stamped =
        starts-claim_all i now period positive (limit, e) (num_recent i now db) 0 ids db u
          (All-known-Waits i db rows u (
            rw (selected-line locked i (max_tasks i db) db rows s) (
              take-All (IsKnown i db) (max_tasks i db) (line locked i db)
                (line-IsKnown i db locked)))) in
      let kept = rate-claim_all i now limit period (num_recent i now db) 0 ids db e in
      let under = below_limit i limit period (num_recent i now db) e l in
      rw (c, d) (stamped, omega (arith, stamped, kept, under, counted))
]
  where
    counted : num_recent i now db ≡ count (is_start i now period) db.workflow_status
    counted =
        unfold num_recent in
        rw e (
          count-cong (is_recent i now period) (is_start i now period)
            (is_recent-is_start i now period) db.workflow_status)
