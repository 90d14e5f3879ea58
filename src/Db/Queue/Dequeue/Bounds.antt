-- ===== src/Db/Queue/Dequeue/Bounds.antt =====
-- The limits that one dequeue keeps: tasks for each iteration and worker, the rate limit, and the
-- number of running workflows of a queue over all workers.
use dbos_transact_rs.Prelude.{
  ℕ, ◌+◌, ◌-◌, ◌≤◌, ◌<◌, max, String, ◌≡◌, refl, Bool, false, some, List, [], ◌∷◌, map, arith,
  count, count-update-le, count_mono, count-find-none, length, length-append, length-take-le,
  select, not, Bool-cases, inl, inr, ap,
}
use dbos_transact_rs.Prelude.Sort.{sort_by}
use dbos_transact_rs.Exec.{Result, ok}
use dbos_transact_rs.Db.Row.{WorkflowRow, has_id}
use dbos_transact_rs.Db.Tables.{Db}
use dbos_transact_rs.Db.View.{UniqueIds, UniqueIds-update}
use dbos_transact_rs.Db.Queue.Dequeue.Iteration.{claimed_by, iteration_cases}
use dbos_transact_rs.Db.Queue.Dequeue.{
  DequeueInput, DequeuedWorkflow, num_recent, reaches_limit, is_running, max_tasks,
  select_candidates, claim, is_claimable, claim_one, claim_all, before, is_candidate,
  dequeue_workflows,
}

length-map : {A B : Type 0} (f : A → B) (xs : List A) → length (map f xs) ≡ length xs
length-map f [] = refl
length-map f (x ∷ xs) = omega (arith, length-map f xs)

pub below_limit :
    (i : DequeueInput) (limit period n : ℕ)
    → i.rate_limit ≡ some (limit, period)
    → reaches_limit i n ≡ false
    → n < limit
unfolding reaches_limit
below_limit i limit period n e h = ground arith

module _ (i : DequeueInput) (now : ℕ) where
  length-claim_one : (id : String) (db : Db) → length (claim_one i now id db).0 ≤ 1
  unfolding claim_one
  length-claim_one id db = ground arith

  pub UniqueIds-claim_one :
      (id : String) (db : Db) → UniqueIds db → UniqueIds (claim_one i now id db).1
  unfolding claim_one claim
  UniqueIds-claim_one id db u k = omega (
    arith,
    u k,
    UniqueIds-update (is_claimable id) (claim i now) (λ r. refl) db.workflow_status k,
  )

  running-claim_one :
      (id : String) (db : Db)
      → UniqueIds db
      → count (is_running i) (claim_one i now id db).1.workflow_status
        ≤ count (is_running i) db.workflow_status + length (claim_one i now id db).0
  unfolding claim_one
  running-claim_one id db u = ground (
    arith,
    count-update-le (is_running i) (is_claimable id) (claim i now) db.workflow_status,
    count_mono (is_claimable id) (has_id id) (λ r h. ground arith) db.workflow_status,
    u id,
    count-find-none (is_claimable id) db.workflow_status,
  )

  -- The three bounds of the loop: a claim for each candidate, the rate limit, and the growth of
  -- the number of running workflows.
  length-claim_all :
      (recent claimed : ℕ) (ids : List String) (db : Db)
      → length (claim_all i now recent claimed ids db).0 ≤ length ids
  unfolding claim_all
  length-claim_all recent claimed [] db = omega arith
  length-claim_all recent claimed (id ∷ ids) db =
      let (out, db') = claim_one i now id db in
      let rest = claim_all i now recent (claimed + length out) ids db' in
      elim (Bool-cases (reaches_limit i (claimed + recent))) [
        | inl e ↦ rw e (omega arith)
        | inr e ↦ rw e (
            omega (
              arith,
              length-append out rest.0,
              length-claim_one id db,
              length-claim_all recent (claimed + length out) ids db',
            ))
      ]

  running-claim_all :
      (recent claimed : ℕ) (ids : List String) (db : Db)
      → UniqueIds db
      → count (is_running i) (claim_all i now recent claimed ids db).1.workflow_status
        ≤ count (is_running i) db.workflow_status + length (claim_all i now recent claimed ids db).0
  unfolding claim_all
  running-claim_all recent claimed [] db u = omega arith
  running-claim_all recent claimed (id ∷ ids) db u =
      let (out, db') = claim_one i now id db in
      let rest = claim_all i now recent (claimed + length out) ids db' in
      elim (Bool-cases (reaches_limit i (claimed + recent))) [
        | inl e ↦ rw e (omega arith)
        | inr e ↦ rw e (
            omega (
              arith,
              length-append out rest.0,
              running-claim_one id db u,
              running-claim_all recent (claimed + length out) ids db' (UniqueIds-claim_one id db u),
            ))
      ]

  pub rate-claim_all :
      (limit period recent claimed : ℕ) (ids : List String) (db : Db)
      → i.rate_limit ≡ some (limit, period)
      → claimed + recent ≤ limit
      → claimed + recent + length (claim_all i now recent claimed ids db).0 ≤ limit
  unfolding claim_all
  rate-claim_all limit period recent claimed [] db e le = omega arith
  rate-claim_all limit period recent claimed (id ∷ ids) db e le =
      let (out, db') = claim_one i now id db in
      let rest = claim_all i now recent (claimed + length out) ids db' in
      elim (Bool-cases (reaches_limit i (claimed + recent))) [
        | inl h ↦ rw h (omega arith)
        | inr h ↦ rw h (
            omega (
              arith,
              length-append out rest.0,
              length-claim_one id db,
              below_limit i limit period (claimed + recent) e h,
              rate-claim_all limit period recent (claimed + length out) ids db' e,
            ))
      ]

module _ (locked : WorkflowRow → Bool) (i : DequeueInput) (now : ℕ) (db : Db) where
  abbrev iteration : Result (List DequeuedWorkflow) × Db
  iteration = dequeue_workflows locked i now db

  length-selected :
      (limit : ℕ) (rows : List WorkflowRow)
      → select_candidates locked i limit db ≡ ok rows
      → length rows ≤ limit
  unfolding select_candidates
  length-selected limit rows h =
      let sorted : List WorkflowRow = sort_by before (select (is_candidate i) db.workflow_status) in
      ground (
        arith,
        length-take-le limit sorted,
        length-take-le limit (select (λ r. not (locked r)) sorted),
      )

  -- An iteration claims at most its tasks.
  pub length-claimed_by-le : length (claimed_by iteration) ≤ max_tasks i db
  length-claimed_by-le = elim (iteration_cases locked i now db) [
    | inl (none_claimed, _) ↦ rw none_claimed (omega arith)
    | inr (rows, s, l, c, d) ↦ rw c (
        omega (
          arith,
          length-claim_all i now (num_recent i now db) 0 (map (λ r. r.workflow_uuid) rows) db,
          length-map {A = WorkflowRow} {B = String} (λ r. r.workflow_uuid) rows,
          length-selected (max_tasks i db) rows s,
        ))
  ]

-- With a worker concurrency of `wc`, an iteration never brings the workflows of this executor
-- above it: the running ones and the claimed ones are at most `wc`, or nothing is claimed.
pub worker_concurrency_kept :
    (locked : WorkflowRow → Bool) (i : DequeueInput) (now wc : ℕ) (db : Db)
    → i.worker_concurrency ≡ some wc
    → i.local_running_count + length (claimed_by (dequeue_workflows locked i now db))
      ≤ max wc i.local_running_count
worker_concurrency_kept locked i now wc db e =
    omega (arith, length-claimed_by-le locked i now db, tasks)
  where
    tasks : max_tasks i db ≤ wc - i.local_running_count
    tasks = unfold max_tasks in ground arith

-- With unique workflow ids and a global concurrency of `gc`, an iteration never brings the number of PENDING workflows of
-- the queue (and partition) above it: afterwards they are at most `gc`, or no more than before.
pub global_concurrency_kept :
    (locked : WorkflowRow → Bool) (i : DequeueInput) (now gc : ℕ) (db : Db)
    → UniqueIds db
    → i.global_concurrency ≡ some gc
    → count (is_running i) (dequeue_workflows locked i now db).1.workflow_status
      ≤ max gc (count (is_running i) db.workflow_status)
global_concurrency_kept locked i now gc db u e = elim (iteration_cases locked i now db) [
  | inl (_, unchanged) ↦ rw unchanged (omega arith)
  | inr (rows, s, l, c, d) ↦ rw d (
      omega (
        arith,
        running-claim_all i now (num_recent i now db) 0 (map (λ r. r.workflow_uuid) rows) db u,
        ap length c,
        length-claimed_by-le locked i now db,
        tasks,
      ))
]
  where
    tasks : max_tasks i db ≤ gc - count (is_running i) db.workflow_status
    tasks = unfold max_tasks in ground arith
