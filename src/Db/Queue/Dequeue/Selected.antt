-- ===== src/Db/Queue/Dequeue/Selected.antt =====
-- The rows that a dequeue selects are candidates of the table.
use dbos_transact_rs.Prelude.{
  ◌≤◌, ◌≡◌, arith, Bool, true, not, ◌&&◌, Bool-cases, inl, inr, none, some, List, [], ◌∷◌, eq_refl,
  count, select, All,
}
use dbos_transact_rs.Prelude.Sort.{sort_by, All-sort_by, All-select}
use dbos_transact_rs.Db.Row.{WorkflowRow, has_id}
use dbos_transact_rs.Db.Tables.{Db}
use dbos_transact_rs.Db.Queue.Dequeue.Priority.{line}
use dbos_transact_rs.Db.Queue.Dequeue.{DequeueInput, is_candidate, before}

module _ (i : DequeueInput) (db : Db) where
  -- A candidate of the table has its id.
  abbrev pub IsKnown : WorkflowRow → Type 0
  IsKnown r = 1 ≤ count (λ x. has_id r.workflow_uuid x && is_candidate i x) db.workflow_status

  selected-IsKnown :
      (rows : List WorkflowRow)
      → ((p : WorkflowRow → Bool) → count p rows ≤ count p db.workflow_status)
      → All IsKnown (select (is_candidate i) rows)
  unfolding select count
  selected-IsKnown [] h = tt
  selected-IsKnown (r ∷ rows) h =
      let rest = selected-IsKnown rows (λ p. ground (arith, h p)) in
      elim (Bool-cases (is_candidate i r)) [
        | inl e ↦
            rw e
              (omega (arith, h (λ x. has_id r.workflow_uuid x && is_candidate i x), itself e), rest)
        | inr e ↦ rw e rest
      ]
    where
      itself :
          is_candidate i r ≡ true
          → 1 ≤ count (λ x. has_id r.workflow_uuid x && is_candidate i x) (r ∷ rows)
      itself e = rw (eq_refl r.workflow_uuid) (rw e (omega arith))

  pub line-IsKnown : (locked : WorkflowRow → Bool) → All IsKnown (line locked i db)
  line-IsKnown locked =
      let rows : List WorkflowRow = select (is_candidate i) db.workflow_status in
      let sorted : All IsKnown (sort_by before rows) =
        All-sort_by before IsKnown rows (selected-IsKnown db.workflow_status (λ p. omega arith)) in
      elim i.global_concurrency
        as (λ o. All IsKnown (elim o [
          | none ↦ select (λ r. not (locked r)) (sort_by before rows)
          | some _ ↦ sort_by before rows
        ])) [
          | none ↦ All-select before IsKnown (λ r. not (locked r)) (sort_by before rows) sorted
          | some _ ↦ sorted
        ]
