-- ===== src/Db/Queue/Dequeue/Priority.antt =====
-- The candidates of a dequeue are the best of the queue: by priority, then by age.
use dbos_transact_rs.Prelude.{
  ℕ, ◌<◌, ◌≤◌, ◌⊎◌, [], ◌∷◌, ◌≡◌, Bool, false, not, none, some, List, arith, select, take, drop,
  All,
}
use dbos_transact_rs.Prelude.Sort.{
  sort_by, IsOrder, IsSorted, sort_by-IsSorted, select-IsSorted, take-IsSorted, take-drop-NotAfter,
}
use dbos_transact_rs.Exec.{ok}
use dbos_transact_rs.Db.Row.{WorkflowRow}
use dbos_transact_rs.Db.Tables.{Db}
use dbos_transact_rs.Db.Queue.Dequeue.{DequeueInput, is_candidate, before, select_candidates}

before-IsOrder : IsOrder before
unfolding before
before-IsOrder = record {
  asym = λ a b h. ground arith;
  trans = λ a b c h k. ground arith;
  below = λ a b c h k. ground arith;
}

-- The rows that a dequeue may take, the first to be taken first. With a global concurrency, rows that
-- other transactions hold are not passed over.
abbrev pub line : (WorkflowRow → Bool) → DequeueInput → Db → List WorkflowRow
line locked i db =
    let rows = sort_by before (select (is_candidate i) db.workflow_status) in
    elim i.global_concurrency [ none ↦ select (λ r. not (locked r)) rows | some _ ↦ rows ]

line-IsSorted :
    (locked : WorkflowRow → Bool) (i : DequeueInput) (db : Db) → IsSorted before (line locked i db)
line-IsSorted locked i db =
    let rows : List WorkflowRow = select (is_candidate i) db.workflow_status in
    elim i.global_concurrency
      as (λ o. IsSorted before (elim o [
        | none ↦ select (λ r. not (locked r)) (sort_by before rows)
        | some _ ↦ sort_by before rows
      ])) [
        | none ↦
            select-IsSorted before (λ r. not (locked r)) (sort_by before rows)
              (sort_by-IsSorted before before-IsOrder rows)
        | some _ ↦ sort_by-IsSorted before before-IsOrder rows
      ]

pub selected-line :
    (locked : WorkflowRow → Bool) (i : DequeueInput) (limit : ℕ) (db : Db) (rows : List WorkflowRow)
    → select_candidates locked i limit db ≡ ok rows
    → rows ≡ take limit (line locked i db)
unfolding select_candidates
selected-line locked i limit db rows h = ground (arith, h)

-- A smaller priority comes first, and an earlier creation among equal priorities.
abbrev pub Precedes : WorkflowRow → WorkflowRow → Type 0
Precedes a b =
    (a.priority < b.priority) ⊎ ((a.priority ≡ b.priority) × (a.created_at ≤ b.created_at))

-- Each row precedes all behind it.
abbrev pub IsRanked : List WorkflowRow → Type 0
IsRanked [] = Unit
IsRanked (a ∷ rows) = All (Precedes a) rows × IsRanked rows

Precedes-before : (a b : WorkflowRow) → before b a ≡ false → Precedes a b
unfolding before
Precedes-before a b h = ground (arith, h)

All-Precedes :
    (a : WorkflowRow) (rows : List WorkflowRow)
    → All (λ b. before b a ≡ false) rows
    → All (Precedes a) rows
All-Precedes a [] h = tt
All-Precedes a (b ∷ rows) h = (Precedes-before a b h.0, All-Precedes a rows h.1)

IsSorted-IsRanked : (rows : List WorkflowRow) → IsSorted before rows → IsRanked rows
IsSorted-IsRanked [] h = tt
IsSorted-IsRanked (a ∷ rows) h = (All-Precedes a rows h.0, IsSorted-IsRanked rows h.1)

All-All-Precedes :
    (rows left : List WorkflowRow)
    → All (λ a. All (λ b. before b a ≡ false) left) rows
    → All (λ a. All (Precedes a) left) rows
All-All-Precedes [] left h = tt
All-All-Precedes (a ∷ rows) left h = (All-Precedes a left h.0, All-All-Precedes rows left h.1)

-- The rows that a dequeue selects stand by ascending priority, and the older first among equal
-- priorities; and each of them has a smaller priority than every row that it leaves waiting, of those
-- that it may take, or the same priority and no later creation.
pub select_candidates-in_order :
    (locked : WorkflowRow → Bool) (i : DequeueInput) (limit : ℕ) (db : Db) (rows : List WorkflowRow)
    → select_candidates locked i limit db ≡ ok rows
    → IsRanked rows × All (λ a. All (Precedes a) (drop limit (line locked i db))) rows
select_candidates-in_order locked i limit db rows h =
    let sorted = line locked i db in
    rw (selected-line locked i limit db rows h) (
      IsSorted-IsRanked (take limit sorted)
          (take-IsSorted before limit sorted (line-IsSorted locked i db)),
      All-All-Precedes (take limit sorted) (drop limit sorted)
          (take-drop-NotAfter before limit sorted (line-IsSorted locked i db)),
    )
