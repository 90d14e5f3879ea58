-- ===== src/Db/Management/Collected.antt =====
-- What `garbage_collect` deletes, and what it never deletes.
use dbos_transact_rs.Prelude.{
  ℕ, ◌≤◌, String, ◌≡◌, refl, ap, not, ◌&&◌, ◌∙◌, Bool, true, false, ◌||◌, Option, none, some, List,
  [], ◌∷◌, arith, eq_iff, any_eq, map, find, find-delete, find-delete_if, find-delete_all, count,
  select, if◌then◌else◌, inl, inr, Bool-cases,
}
use dbos_transact_rs.Db.WorkflowStatusType.{pending, enqueued, delayed, same_status}
use dbos_transact_rs.Db.Row.{WorkflowRow, has_id}
use dbos_transact_rs.Db.Tables.{Db, OperationRow}
use dbos_transact_rs.Db.View.{row_of, UniqueIds}
use dbos_transact_rs.Db.Steps.{is_operation, operation_of}
use dbos_transact_rs.Db.Management.Newest.{
  created_before, outnumbered, created_before-effective_cutoff,
}
use dbos_transact_rs.Db.Management.Retire.{
  delete_where, effective_cutoff, is_garbage, collect_before, garbage_collect,
}

-- The ids of the rows that a condition takes.
abbrev ids_where : (WorkflowRow → Bool) → List WorkflowRow → List String
ids_where p rows = map (λ r. r.workflow_uuid) (select p rows)

any_eq-absent :
    (p : WorkflowRow → Bool) (id : String) (rows : List WorkflowRow)
    → count (has_id id) rows ≡ 0
    → any_eq (ids_where p rows) id ≡ false
unfolding any_eq select count
any_eq-absent p id [] h = refl
any_eq-absent p id (r ∷ rows) h = ground (arith, any_eq-absent p id rows)

-- With unique ids, an id is among them exactly if its row is taken.
any_eq-ids_where :
    (p : WorkflowRow → Bool) (id : String) (rows : List WorkflowRow) (r : WorkflowRow)
    → count (has_id id) rows ≤ 1
    → find (has_id id) rows ≡ some r
    → any_eq (ids_where p rows) id ≡ p r
unfolding any_eq select count find
any_eq-ids_where p id [] r u h = cc
any_eq-ids_where p id (x ∷ rows) r u h =
    ground (arith, any_eq-ids_where p id rows r, any_eq-absent p id rows)

module _ (p : WorkflowRow → Bool) (id : String) (db : Db) (r : WorkflowRow) (unique : UniqueIds db)
    (found : row_of id db ≡ some r) where
  row_of-delete_where : row_of id (delete_where p db) ≡ (if p r then none else some r)
  unfolding delete_where
  row_of-delete_where = find-delete_if (has_id id) p db.workflow_status r (unique id) found

  -- The cascade deletes the steps of the deleted workflows only.
  operation_of-delete_where :
      (k : ℕ) → operation_of id k (delete_where p db) ≡ (if p r then none else operation_of id k db)
  unfolding delete_where
  operation_of-delete_where k = elim (Bool-cases (p r)) [
    | inl e ↦
        rw e (find-delete_all (is_operation id k) _ (λ x h. at_id x h ∙ e) db.operation_outputs)
    | inr e ↦ rw e (find-delete (is_operation id k) _ (λ x h. at_id x h ∙ e) db.operation_outputs)
  ]
    where
      at_id :
          (x : OperationRow)
          → is_operation id k x ≡ true
          → any_eq (ids_where p db.workflow_status) x.workflow_uuid ≡ p r
      at_id x h =
          let same : x.workflow_uuid ≡ id = ground (arith, eq_iff x.workflow_uuid id) in
          rw same (any_eq-ids_where p id db.workflow_status r (unique id) found)

-- A workflow that has ended: it does not run, wait on a queue, or wait for its delay.
abbrev pub has_ended : WorkflowRow → Bool
has_ended r =
    not (
      same_status r.status pending || same_status r.status enqueued || same_status r.status delayed)

-- Whether a row is garbage under the effective cutoff, if there is one.
abbrev is_collected : Option ℕ → WorkflowRow → Bool
is_collected none r = false
is_collected (some cutoff) r = is_garbage cutoff r

is_collected-has_ended :
    (c : Option ℕ) (r : WorkflowRow)
    → is_collected c r ≡ (has_ended r && created_before r.created_at c)
is_collected-has_ended none r = ground arith
is_collected-has_ended (some c) r = unfold is_garbage in ground arith

-- What is garbage: it has ended, and was created before the cutoff or has `threshold` newer rows.
abbrev pub is_due : Option ℕ → Option ℕ → Db → WorkflowRow → Bool
is_due cutoff threshold db r =
    has_ended r
    && (created_before r.created_at cutoff || outnumbered r.created_at threshold db.workflow_status)

-- With unique workflow ids, garbage collection deletes a workflow, and its recorded steps with it,
-- exactly if it is not PENDING, ENQUEUED or DELAYED and was created before the cutoff or, for a
-- positive threshold, at least as many workflows as the threshold were created after it. Every other
-- workflow keeps its row and its steps.
pub garbage_collect-exact :
    (cutoff threshold : Option ℕ) (id : String) (k : ℕ) (db : Db) (r : WorkflowRow)
    → UniqueIds db
    → row_of id db ≡ some r
    → (row_of id (garbage_collect cutoff threshold db).1
        ≡ (if is_due cutoff threshold db r then none else some r))
      × (operation_of id k (garbage_collect cutoff threshold db).1
          ≡ (if is_due cutoff threshold db r then none else operation_of id k db))
unfolding garbage_collect
garbage_collect-exact cutoff threshold id k db r unique found =
    rw
      (← (
        is_collected-has_ended (effective_cutoff cutoff threshold db) r
        ∙ ap (λ b. has_ended r && b)
            (created_before-effective_cutoff r.created_at cutoff threshold db)))
      (at_cutoff (effective_cutoff cutoff threshold db))
  where
    at_cutoff :
        (c : Option ℕ)
        → (row_of id (collect_before c db) ≡ (if is_collected c r then none else some r))
          × (operation_of id k (collect_before c db)
              ≡ (if is_collected c r then none else operation_of id k db))
    at_cutoff none = unfold collect_before in (found, refl)
    at_cutoff (some c) =
        unfold collect_before in
        (
          row_of-delete_where (is_garbage c) id db r unique found,
          operation_of-delete_where (is_garbage c) id db r unique found k,
        )

-- With unique workflow ids, a workflow that is PENDING, ENQUEUED or DELAYED is never deleted, nor are its steps.
pub garbage_collect-keeps_live :
    (cutoff threshold : Option ℕ) (id : String) (k : ℕ) (db : Db) (r : WorkflowRow)
    → UniqueIds db
    → row_of id db ≡ some r
    → (same_status r.status pending
        || same_status r.status enqueued
        || same_status r.status delayed)
      ≡ true
    → (row_of id (garbage_collect cutoff threshold db).1 ≡ some r)
      × (operation_of id k (garbage_collect cutoff threshold db).1 ≡ operation_of id k db)
garbage_collect-keeps_live cutoff threshold id k db r unique found live =
    let (rows, steps) = garbage_collect-exact cutoff threshold id k db r unique found in
    let spared : is_due cutoff threshold db r ≡ false = ground (arith, live) in
    (rows ∙ rw spared refl, steps ∙ rw spared refl)
