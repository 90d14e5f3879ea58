-- ===== src/Db/Queue/Dequeue/Claims.antt =====
-- What a dequeue without limits on rates and over all workers claims: every candidate that is not
-- locked, if it may claim as many tasks as there are candidates.
use dbos_transact_rs.Prelude.{
  ℕ, ◌+◌, ◌≤◌, String, ◌≡◌, refl, sym, ap, subst, ◌∙◌, arith, Bool, true, false, not, ◌&&◌,
  Bool-cases, inl, inr, none, some, List, [], ◌∷◌, map, ◌==◌, eq_iff, eq_refl, eqb, count, find,
  select, length, find-update_apart, count_mono, find-refined, count-find_and, count-select,
  length-select, length-count, count-le-length, take_all, count-map, count-front, count-back,
}
use dbos_transact_rs.Prelude.Sort.{sort_by}
use dbos_transact_rs.Prelude.SortLaws.{count-sort_by}
use dbos_transact_rs.Exec.{ok}
use dbos_transact_rs.Db.WorkflowStatusType.{enqueued, same_status}
use dbos_transact_rs.Db.Row.{WorkflowRow, has_id}
use dbos_transact_rs.Db.Tables.{Db}
use dbos_transact_rs.Db.View.{row_of}
use dbos_transact_rs.Db.Queue.Dequeue.{
  DequeueInput, DequeuedWorkflow, num_recent, reaches_limit, max_tasks, select_candidates, claim,
  is_claimable, claim_one, claim_all, claim_selected, commit_claimed, before, is_candidate,
  dequeue_workflows,
}
use dbos_transact_rs.Db.Queue.Dequeue.Iteration.{claimed_by}

module _ (i : DequeueInput) (now : ℕ) (unlimited : i.rate_limit ≡ none) where
  never_limited : (n : ℕ) → reaches_limit i n ≡ false
  unfolding reaches_limit
  never_limited n = rw unlimited

  -- A claim of another workflow leaves a claimable one.
  claimable-claim_one :
      (other id : String) (db : Db)
      → (other == id) ≡ false
      → find (is_claimable id) (claim_one i now other db).1.workflow_status
        ≡ find (is_claimable id) db.workflow_status
  unfolding claim_one claim
  claimable-claim_one other id db apart =
      find-update_apart (is_claimable id) (is_claimable other) (claim i now) (λ r h. different r h)
        (λ r h. ground arith) db.workflow_status
    where
      different : (r : WorkflowRow) → is_claimable id r ≡ true → is_claimable other r ≡ false
      different r h = ground (
        arith,
        h,
        apart,
        eq_iff r.workflow_uuid id,
        eq_iff r.workflow_uuid other,
        eq_iff other id,
      )

  claim_one-claims :
      (id : String) (r : WorkflowRow) (db : Db)
      → find (is_claimable id) db.workflow_status ≡ some r
      → 1 ≤ count (λ w. w.id == id) (claim_one i now id db).0
  unfolding claim_one count
  claim_one-claims id r db h = rw (h, claim_one, count) (rw (eq_refl id) (omega arith))

  -- The loop claims each claimable workflow among its ids.
  claim_all-claims :
      (recent claimed : ℕ) (id : String) (r : WorkflowRow) (ids : List String) (db : Db)
      → find (is_claimable id) db.workflow_status ≡ some r
      → 1 ≤ count (λ x. x == id) ids
      → 1 ≤ count (λ w. w.id == id) (claim_all i now recent claimed ids db).0
  unfolding claim_all count
  claim_all-claims recent claimed id r [] db h k = absurd (omega (arith, k))
  claim_all-claims recent claimed id r (x ∷ ids) db h k =
      let (out, db') = claim_one i now x db in
      let rest = claim_all i now recent (claimed + length out) ids db' in
      elim (Bool-cases (x == id)) [
        | inl e ↦
            let here =
              subst (λ y. 1 ≤ count (λ w. w.id == id) (claim_one i now y db).0)
                (sym ((eq_iff x id).0 e)) (claim_one-claims id r db h) in
            rw (never_limited (claimed + recent))
              (omega (arith, here, count-front (λ w. w.id == id) out rest.0))
        | inr e ↦
            let there =
              claim_all-claims recent (claimed + length out) id r ids db'
                (claimable-claim_one x id db e ∙ h) (ground (arith, e, k)) in
            rw (never_limited (claimed + recent))
              (omega (arith, there, count-back (λ w. w.id == id) out rest.0))
      ]

module _ (locked : WorkflowRow → Bool) (i : DequeueInput) (now : ℕ) (db : Db) where
  abbrev free_candidates : List WorkflowRow
  free_candidates =
      select (λ r. not (locked r)) (sort_by before (select (is_candidate i) db.workflow_status))

  few_candidates :
      (n : ℕ) → count (is_candidate i) db.workflow_status ≤ n → length free_candidates ≤ n
  few_candidates n h =
      let chosen = select (is_candidate i) db.workflow_status in
      omega (
        arith,
        h,
        length-select (λ r. not (locked r)) (sort_by before chosen),
        count-le-length (λ r. not (locked r)) (sort_by before chosen),
        length-count (sort_by before chosen),
        count-sort_by before (λ _. true) chosen,
        length-count chosen,
        length-select (is_candidate i) db.workflow_status,
      )

  -- With room for all of them, the unlocked candidates are selected.
  select_candidates_all :
      (n : ℕ)
      → i.global_concurrency ≡ none
      → count (is_candidate i) db.workflow_status ≤ n
      → select_candidates locked i n db ≡ ok free_candidates
  unfolding select_candidates is_candidate
  select_candidates_all n g h = rw g (ap ok (take_all n free_candidates (few_candidates n h)))

  among_candidates :
      (id : String) (r : WorkflowRow)
      → row_of id db ≡ some r
      → is_candidate i r ≡ true
      → locked r ≡ false
      → 1 ≤ count (λ x. x == id) (map (λ r. r.workflow_uuid) free_candidates)
  among_candidates id r h c l =
      let chosen = select (is_candidate i) db.workflow_status in
      let free = λ (x : WorkflowRow). not (locked x) in
      let mine = λ (x : WorkflowRow). has_id id x && free x in
      omega (
        arith,
        count-map (λ x. x == id) (λ (r : WorkflowRow). r.workflow_uuid) free_candidates,
        count-select (has_id id) free (sort_by before chosen),
        count-sort_by before mine chosen,
        count-select mine (is_candidate i) db.workflow_status,
        count-find_and mine (is_candidate i) db.workflow_status r
            (find-refined (has_id id) free db.workflow_status r h (rw l)) c,
      )

  is_enqueued : (r : WorkflowRow) → is_candidate i r ≡ true → same_status r.status enqueued ≡ true
  unfolding is_candidate
  is_enqueued r c = ground (arith, c)

  positive : (m n : ℕ) → 1 ≤ m → m ≤ n → eqb n 0 ≡ false
  positive m n h k = ground (arith, h, k)

  some_candidate :
      (id : String) (r : WorkflowRow)
      → row_of id db ≡ some r
      → is_candidate i r ≡ true
      → 1 ≤ count (is_candidate i) db.workflow_status
  some_candidate id r h c = omega (
    arith,
    count-find_and (has_id id) (is_candidate i) db.workflow_status r h c,
    count_mono (λ x. has_id id x && is_candidate i x) (is_candidate i)
        (λ x e. second (has_id id x) (is_candidate i x) e) db.workflow_status,
  )
    where
      second : (a b : Bool) → (a && b) ≡ true → b ≡ true
      second true b e = e
      second false b e = absurd (ground (arith, e))

  claimed_by_commit : (p : List DequeuedWorkflow × Db) → claimed_by (commit_claimed db p) ≡ p.0
  claimed_by_commit ([], db') = refl
  claimed_by_commit (w ∷ ws, db') = refl

  -- An ENQUEUED workflow that a dequeue of its queue, version and partition finds unlocked is
  -- claimed by it, if the queue has no rate limit and no limit over all workers, and this worker may
  -- take as many tasks as there are candidates.
  pub dequeue_workflows-claims :
      (id : String) (r : WorkflowRow)
      → i.rate_limit ≡ none
      → i.global_concurrency ≡ none
      → row_of id db ≡ some r
      → is_candidate i r ≡ true
      → locked r ≡ false
      → count (is_candidate i) db.workflow_status ≤ max_tasks i db
      → 1 ≤ count (λ w. w.id == id) (claimed_by (dequeue_workflows locked i now db))
  unfolding dequeue_workflows claim_selected
  dequeue_workflows-claims id r unlimited g h c l room =
      let n = max_tasks i db in
      let ids = map (λ (r : WorkflowRow). r.workflow_uuid) free_candidates in
      rw (never_limited i now unlimited (num_recent i now db)) (
        rw (positive (count (is_candidate i) db.workflow_status) n (some_candidate id r h c) room) (
          rw (select_candidates_all n g room) (
            rw (claimed_by_commit (claim_all i now (num_recent i now db) 0 ids db)) (
              claim_all-claims i now unlimited (num_recent i now db) 0 id r ids db
                (find-refined (has_id id) (λ r. same_status r.status enqueued) db.workflow_status r
                  h (is_enqueued r c))
                (among_candidates id r h c l)))))
