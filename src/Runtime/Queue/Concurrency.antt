-- ===== src/Runtime/Queue/Concurrency.antt =====
-- The runs of an executor's queues as a step relation: polls of any partition at any time, ends of
-- tasks, and what other processes do to the database.
use mathlib.Core.Option
use dbos_transact_rs.Prelude.{
  ℕ, ◌+◌, ◌-◌, ◌%◌, ◌^◌, ◌≤◌, ◌<◌, max, String, ◌≡◌, refl, sym, ap, subst, ◌∙◌, arith, Bool, true,
  false, Option, none, some, List, [], ◌∷◌, ◌++◌, eq_iff, count, length, get_or, if◌then◌else◌,
}
use dbos_transact_rs.Exec.{Result, ok, err}
use dbos_transact_rs.Db.Row.{WorkflowRow}
use dbos_transact_rs.Db.Tables.{Db}
use dbos_transact_rs.Db.Queue.Dequeue.{DequeuedWorkflow, dequeue_workflows}
use dbos_transact_rs.Db.Queue.Dequeue.Iteration.{claimed_by}
use dbos_transact_rs.Db.Queue.Dequeue.Bounds.{worker_concurrency_kept}
use dbos_transact_rs.Runtime.Workflow.{Executor}
use dbos_transact_rs.Runtime.Queue.Options.{WorkflowQueue}
use dbos_transact_rs.Runtime.Queue.Runner.{
  Task, Runner, usize, is_key, dec_worker, worker_count, count_key, finish_task, dequeue_input,
  after_dequeue, poll_partition, dispatch_all,
}
use dbos_transact_rs.Runtime.Queue.Workers.{
  of_key, CountIs, Counts, count-append, counted_down, Counts-dispatch_all, tasks-dispatch_all,
}

-- No workflow runs yet.
abbrev pub idle : Db → Runner
idle db = record { db = db; worker_counts = λ _ _. none; tasks = [] }

key_parts : (a b c d : String) → is_key a b c d ≡ true → (a ≡ c) × (b ≡ d)
key_parts a b c d h =
    (ground (arith, eq_iff a c, eq_iff b d, h), ground (arith, eq_iff a c, eq_iff b d, h))

module _ (error_text : String → Option String → String) (x : Executor)
    (config : String → WorkflowQueue) where
  pub data Step : Runner → Runner → Type 0 where
    poll :
        {s : Runner} (q : String) (partition : Option String) (now : ℕ)
        (locked : WorkflowRow → Bool)
        → Step s (poll_partition x (config q) now locked partition s).1
    finish :
        {s : Runner} (before : List Task) (t : Task) (after : List Task) (now : ℕ)
        (result : Result String)
        → s.tasks ≡ before ++ t ∷ after
        → Step s (finish_task error_text now t result (record s { tasks = before ++ after }))
    elsewhere : {s : Runner} (db : Db) → Step s (record s { db = db })

  pub data Run : Runner → Runner → Type 0 where
    start : {s : Runner} → Run s s
    andthen : {s t u : Runner} → Run s t → Step t u → Run s u

  -- The queues are those of their names, and a worker concurrency is a u32.
  pub record IsConfig : Type 0 where
    pub named : (q : String) → (config q).name ≡ q
    pub small : (q : String) (wc : ℕ) → (config q).worker_concurrency ≡ some wc → wc < 2 ^ 32

  record Kept (s : Runner) : Type 0 where
    counts : Counts s
    limited :
        (q p : String) (wc : ℕ)
        → (config q).worker_concurrency ≡ some wc
        → count (of_key q p) s.tasks ≤ wc

  Kept-idle : (db : Db) → Kept (idle db)
  unfolding count
  Kept-idle db = record { counts = λ q p. refl; limited = λ q p wc h. omega arith }

  count_exact : (o : Option ℕ) (n wc : ℕ) → CountIs o n → n ≤ wc → wc < 2 ^ 32 → get_or o 0 ≡ n
  count_exact none n wc h le small = omega (arith, h)
  count_exact (some c) n wc h le small = omega (arith, h, le, small)

  module _ (c : IsConfig) where
    -- The local count that a dequeue is given is the number of the key's tasks.
    local_count :
        (s : Runner)
        → Kept s
        → (q p : String) (wc : ℕ) → (config q).worker_concurrency ≡ some wc
        → get_or (s.worker_counts q p) 0 ≡ count (of_key q p) s.tasks
    local_count s k q p wc h =
        count_exact (s.worker_counts q p) (count (of_key q p) s.tasks) wc (k.counts q p)
          (k.limited q p wc h) (c.small q wc h)

    -- The tasks of a key after the dispatch of what a dequeue claimed.
    dispatched :
        (same : Bool) (before after claimed wc : ℕ)
        → after ≤ before + (if same then claimed else 0)
        → before ≤ wc
        → (same ≡ true → before + claimed ≤ max wc before)
        → after ≤ wc
    dispatched same before after claimed wc h le k = ground (arith, h, le, k)

    -- The count that the dequeue was given, by the key of the tasks that it adds.
    given :
        (q : String) (partition : Option String) (s : Runner) (q' p' : String) (wc : ℕ)
        → Kept s
        → (config q).name ≡ q'
        → get_or partition "" ≡ p'
        → (config q').worker_concurrency ≡ some wc
        → worker_count s.worker_counts (config q).name partition ≡ count (of_key q' p') s.tasks
    unfolding worker_count count_key
    given q partition s q' p' wc k eq ep h =
        ap (λ a. get_or (s.worker_counts a (get_or partition "")) 0) eq
        ∙ ap (λ b. get_or (s.worker_counts q' b) 0) ep
        ∙ local_count s k q' p' wc h

    Kept-after_dequeue :
        (q : String) (partition : Option String) (s : Runner)
        (r : Result (List DequeuedWorkflow) × Db)
        → Kept s
        → ((wc : ℕ)
            → (config q).worker_concurrency ≡ some wc
            → worker_count s.worker_counts (config q).name partition + length (claimed_by r)
              ≤ max wc (worker_count s.worker_counts (config q).name partition))
        → Kept (after_dequeue x (config q) partition s r).1
    unfolding after_dequeue worker_count count_key
    Kept-after_dequeue q partition s (err e, db) k h = record {
      counts = k.counts;
      limited = k.limited;
    }
    Kept-after_dequeue q partition s (ok wfs, db) k h = record {
      counts = Counts-dispatch_all x (config q).name partition wfs (record s { db = db }) k.counts;
      limited = λ q' p' wc e.
          dispatched (is_key (config q).name (get_or partition "") q' p')
            (count (of_key q' p') s.tasks)
            (count (of_key q' p')
              (dispatch_all x (config q).name partition wfs (record s { db = db })).tasks)
            (length wfs) wc
            (tasks-dispatch_all x (config q).name partition wfs (record s { db = db }) q' p')
            (k.limited q' p' wc e)
            λ same.
              let (eq, ep) = key_parts (config q).name (get_or partition "") q' p' same in
              let there = sym (c.named q) ∙ eq in
              subst (λ n. n + length wfs ≤ max wc n) (given q partition s q' p' wc k eq ep e)
                (h wc (ap (λ a. (config a).worker_concurrency) there ∙ e));
    }

    Kept-poll :
        (q : String) (partition : Option String) (now : ℕ) (locked : WorkflowRow → Bool)
        (s : Runner)
        → Kept s
        → Kept (poll_partition x (config q) now locked partition s).1
    unfolding poll_partition dequeue_input
    Kept-poll q partition now locked s k =
        let i = dequeue_input x (config q) partition s.worker_counts in
        Kept-after_dequeue q partition s (dequeue_workflows locked i now s.db) k
          (λ wc h. worker_concurrency_kept locked i now wc s.db h)

    -- The tasks without one of them.
    one_less :
        (before after : List Task) (t : Task) (q p : String)
        → count (of_key q p) (before ++ t ∷ after)
          ≡ count (of_key q p) (before ++ after) + (if is_key t.queue t.partition q p then 1 else 0)
    unfolding count
    one_less before after t q p = ground (
      arith,
      count-append (of_key q p) before (t ∷ after),
      count-append (of_key q p) before after,
    )

    CountIs-finish :
        (b : Bool) (o : Option ℕ) (m n : ℕ)
        → CountIs o m
        → m ≡ n + (if b then 1 else 0)
        → CountIs (if b then Option.map (λ c. (c + usize - 1) % usize) o else o) n
    CountIs-finish true o m n h e = counted_down o n (subst (λ k. CountIs o k) e h)
    CountIs-finish false o m n h e = subst (λ k. CountIs o k) (e ∙ nothing n) h
      where
        nothing : (n : ℕ) → n + 0 ≡ n
        nothing n = omega arith

    Kept-Step : {s t : Runner} → Step s t → Kept s → Kept t
    unfolding finish_task dec_worker
    Kept-Step (poll q partition now locked) k = Kept-poll q partition now locked _ k
    Kept-Step (elsewhere db) k = record { counts = k.counts; limited = k.limited }
    Kept-Step (finish before t after now result e) k = record {
      counts = λ q p.
          CountIs-finish (is_key t.queue t.partition q p) _ _ (count (of_key q p) (before ++ after))
            (k.counts q p) (ap (count (of_key q p)) e ∙ one_less before after t q p);
      limited = λ q p wc h.
          omega
            (arith, k.limited q p wc h, ap (count (of_key q p)) e ∙ one_less before after t q p);
    }

    Kept-Run : {s t : Runner} → Run s t → Kept s → Kept t
    Kept-Run start k = k
    Kept-Run (andthen r step) k = Kept-Step step (Kept-Run r k)

    -- In every run of the executor, at most as many workflows of a queue and partition run at once
    -- as the queue's worker concurrency says, and the count in memory is their number.
    pub worker_concurrency_respected :
        (db : Db) (s : Runner)
        → Run (idle db) s
        → (q : String) (partition : Option String) (wc : ℕ)
        → (config q).worker_concurrency ≡ some wc
        → (count (of_key q (get_or partition "")) s.tasks ≤ wc)
          × (worker_count s.worker_counts q partition
              ≡ count (of_key q (get_or partition "")) s.tasks)
    unfolding worker_count count_key
    worker_concurrency_respected db s run q partition wc h =
        let kept = Kept-Run run (Kept-idle db) in
        (kept.limited q (get_or partition "") wc h, local_count s kept q (get_or partition "") wc h)
