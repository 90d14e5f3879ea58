-- ===== src/Runtime/Queue/Workers.antt =====
-- The counts of the running workflows, over every sequence of polls and ends of tasks.
use dbos_transact_rs.Prelude.{
  ℕ, ◌+◌, ◌-◌, ◌%◌, ◌≤◌, String, ◌≡◌, subst, arith, Bool, Bool-cases, Option-cases, inl, inr,
  Option, none, some, List, [], ◌∷◌, ◌++◌, count, length, get_or, if◌then◌else◌,
}
use mathlib.Core.Option
use dbos_transact_rs.Db.Queue.Dequeue.{DequeuedWorkflow}
use dbos_transact_rs.Runtime.Workflow.{Executor}
use dbos_transact_rs.Runtime.Queue.Runner.{
  Task, Runner, usize, is_key, inc_worker, dispatch_dequeued, dispatch_all, count_key,
}

abbrev pub of_key : String → String → Task → Bool
of_key q p t = is_key t.queue t.partition q p

-- A count tells the number of tasks; a key without a count has no task.
abbrev pub CountIs : Option ℕ → ℕ → Type 0
CountIs none n = n ≡ 0
CountIs (some c) n = c ≡ n % usize

abbrev pub Counts : Runner → Type 0
Counts s = (q p : String) → CountIs (s.worker_counts q p) (count (of_key q p) s.tasks)

pub count-append :
    {R : Type 0} (b : R → Bool) (xs ys : List R) → count b (xs ++ ys) ≡ count b xs + count b ys
unfolding count
count-append b [] ys = omega arith
count-append b (x ∷ xs) ys = ground (arith, count-append b xs ys)

counted_up : (o : Option ℕ) (n : ℕ) → CountIs o n → (get_or o 0 + 1) % usize ≡ (n + 1) % usize
counted_up none n h = rw h
counted_up (some c) n h = omega (arith, h)

pub counted_down :
    (o : Option ℕ) (n : ℕ)
    → CountIs o (n + 1)
    → CountIs (Option.map (λ c. (c + usize - 1) % usize) o) n
counted_down none n h = absurd (omega (arith, h))
counted_down (some c) n h = omega (arith, h)

-- A task more under its key.
count-add_task :
    (t : Task) (ts : List Task) (q p : String)
    → count (of_key q p) (ts ++ t ∷ [])
      ≡ count (of_key q p) ts + (if is_key t.queue t.partition q p then 1 else 0)
unfolding count
count-add_task t ts q p = ground (arith, count-append (of_key q p) ts (t ∷ []))

CountIs-inc_worker :
    (t : Task) (ts : List Task) (counts : String → String → Option ℕ) (q p : String)
    → CountIs (counts q p) (count (of_key q p) ts)
    → CountIs (inc_worker t.queue t.partition counts q p) (count (of_key q p) (ts ++ t ∷ []))
unfolding inc_worker
CountIs-inc_worker t ts counts q p h = elim (Bool-cases (is_key t.queue t.partition q p)) [
  | inl e ↦ rw (count-add_task t ts q p) (rw e (counted_up (counts q p) (count (of_key q p) ts) h))
  | inr e ↦
      rw (count-add_task t ts q p)
        (rw e (subst (λ n. CountIs (counts q p) n) (plus_zero (count (of_key q p) ts)) h))
]
  where
    plus_zero : (n : ℕ) → n ≡ n + 0
    plus_zero n = omega arith

module _ (x : Executor) (queue : String) (partition : Option String) where
  Counts-dispatch_dequeued :
      (wf : DequeuedWorkflow) (s : Runner)
      → Counts s
      → Counts (dispatch_dequeued x queue partition wf s)
  unfolding dispatch_dequeued count_key
  Counts-dispatch_dequeued wf s h q p = elim (Option-cases (x.registry wf.name)) [
    | inl e ↦ rw (e, dispatch_dequeued) (h q p)
    | inr (entry, e) ↦
        rw (e, dispatch_dequeued)
          (CountIs-inc_worker
            (record {
              queue = queue;
              partition = get_or partition "";
              id = wf.id;
              serialization = wf.serialization;
            })
            s.tasks s.worker_counts q p (h q p))
  ]

  -- A dispatch adds at most one task, under the key of the queue and the partition.
  tasks-dispatch_dequeued :
      (wf : DequeuedWorkflow) (s : Runner) (q p : String)
      → count (of_key q p) (dispatch_dequeued x queue partition wf s).tasks
        ≤ count (of_key q p) s.tasks + (if is_key queue (get_or partition "") q p then 1 else 0)
  unfolding dispatch_dequeued count_key
  tasks-dispatch_dequeued wf s q p = elim (Option-cases (x.registry wf.name)) [
    | inl e ↦ rw (e, dispatch_dequeued) (omega arith)
    | inr (entry, e) ↦
        rw (e, dispatch_dequeued)
          (omega (
            arith,
            count-add_task
                (record {
                  queue = queue;
                  partition = get_or partition "";
                  id = wf.id;
                  serialization = wf.serialization;
                })
                s.tasks q p,
          ))
  ]

  pub Counts-dispatch_all :
      (wfs : List DequeuedWorkflow) (s : Runner)
      → Counts s
      → Counts (dispatch_all x queue partition wfs s)
  unfolding dispatch_all
  Counts-dispatch_all [] s h = h
  Counts-dispatch_all (wf ∷ wfs) s h =
      Counts-dispatch_all wfs (dispatch_dequeued x queue partition wf s)
        (Counts-dispatch_dequeued wf s h)

  pub tasks-dispatch_all :
      (wfs : List DequeuedWorkflow) (s : Runner) (q p : String)
      → count (of_key q p) (dispatch_all x queue partition wfs s).tasks
        ≤ count (of_key q p) s.tasks
          + (if is_key queue (get_or partition "") q p then length wfs else 0)
  unfolding dispatch_all
  tasks-dispatch_all [] s q p = ground arith
  tasks-dispatch_all (wf ∷ wfs) s q p = ground (
    arith,
    tasks-dispatch_dequeued wf s q p,
    tasks-dispatch_all wfs (dispatch_dequeued x queue partition wf s) q p,
  )
