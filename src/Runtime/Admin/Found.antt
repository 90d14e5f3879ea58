-- ===== src/Runtime/Admin/Found.antt =====
-- What the admin server answers about one workflow.
use dbos_transact_rs.Prelude.{
  ◌≤◌, String, ◌≡◌, refl, ap, ◌∙◌, arith, Bool, false, not, Option, none, some, List, [], ◌∷◌, map,
  eq_iff, any_eq, select, find, count,
}
use dbos_transact_rs.Prelude.Sort.{sort_by}
use dbos_transact_rs.Prelude.SortLaws.{count-sort_by, find-sort_by}
use dbos_transact_rs.Exec.{Result}
use dbos_transact_rs.Db.Row.{WorkflowRow, has_id}
use dbos_transact_rs.Db.Tables.{Db}
use dbos_transact_rs.Db.View.{row_of}
use dbos_transact_rs.Db.Management.List.{
  matches, wanted_status, listed_before, listed_rows, page, list_workflows, workflow_status_of,
}
use dbos_transact_rs.Serialize.Value.{Value}
use dbos_transact_rs.Serialize.Serde.{Serde}
use dbos_transact_rs.Runtime.Admin.{
  Response, answer_json, not_found, by_id, first_to_wire, get_workflow,
}
use dbos_transact_rs.Runtime.Admin.Wire.{workflow_to_wire}

abbrev first {ℓ} : {A : Type ℓ} → List A → Option A
first [] = none
first (x ∷ xs) = some x

module _ {ℓ} {R : Type ℓ} (q : R → Bool) where
  first-find : (xs : List R) → count (λ x. not (q x)) xs ≡ 0 → first xs ≡ find q xs
  unfolding count find
  first-find [] h = refl
  first-find (x ∷ xs) h = ground (arith, h)

  count-not-select : (xs : List R) → count (λ x. not (q x)) (select q xs) ≡ 0
  unfolding count select
  count-not-select [] = refl
  count-not-select (x ∷ xs) = ground (arith, count-not-select xs)

  count-select : (xs : List R) → count q (select q xs) ≡ count q xs
  unfolding count select
  count-select [] = refl
  count-select (x ∷ xs) = ground (arith, count-select xs)

  find-select_own : (xs : List R) → find q (select q xs) ≡ find q xs
  unfolding find select
  find-select_own [] = refl
  find-select_own (x ∷ xs) = ground (arith, find-select_own xs)

  -- Where at most one row has a key, it is the first of the sorted rows with the key.
  first-sort_by :
      (before : R → R → Bool) (xs : List R)
      → count q xs ≤ 1
      → first (sort_by before (select q xs)) ≡ find q xs
  first-sort_by before xs h =
      first-find (sort_by before (select q xs))
        (count-sort_by before (λ x. not (q x)) (select q xs) ∙ count-not-select xs)
      ∙ find-sort_by before q (select q xs) (ground (arith, count-select xs, h))
      ∙ find-select_own xs

  select-cong : (p : R → Bool) → ((x : R) → p x ≡ q x) → (xs : List R) → select p xs ≡ select q xs
  unfolding select
  select-cong p same [] = refl
  select-cong p same (x ∷ xs) = rw (same x) (rw (select-cong p same xs) refl)

matches-by_id : (id : String) (r : WorkflowRow) → matches (by_id id) r ≡ has_id id r
unfolding matches wanted_status any_eq
matches-by_id id r = ground (arith, eq_iff id r.workflow_uuid, eq_iff r.workflow_uuid id)

first-listed :
    (id : String) (db : Db)
    → count (has_id id) db.workflow_status ≤ 1
    → first (listed_rows (by_id id) db) ≡ row_of id db
unfolding listed_rows page
first-listed id db h =
    rw (select-cong (has_id id) (matches (by_id id)) (matches-by_id id) db.workflow_status)
      (first-sort_by (has_id id) (listed_before false) db.workflow_status h)

-- What a row is shown as, and the answer where there is none.
unfoldable pub shown : (WorkflowRow → Value) → Option WorkflowRow → Response
shown wire none = not_found
shown wire (some r) = answer_json (wire r)

module _ (J : Serde)
    (decode_input decode_value : Option String → Option String → Result Value) where
  first_to_wire-map :
      (rows : List WorkflowRow)
      → first_to_wire J decode_input decode_value
          (map (workflow_status_of decode_input decode_value) rows)
        ≡ shown
            (λ r. workflow_to_wire J (workflow_status_of decode_input decode_value r))
            (first rows)
  unfolding first_to_wire shown
  first_to_wire-map [] = refl
  first_to_wire-map (r ∷ rows) = refl

  -- In a table whose rows have different ids, a request for a workflow is answered by the row of the
  -- id, as JSON, and by 404 if and only if there is none; it changes nothing.
  pub get_workflow-row :
      (id : String) (db : Db)
      → count (has_id id) db.workflow_status ≤ 1
      → get_workflow J decode_input decode_value id db ≡ (
        shown
            (λ r. workflow_to_wire J (workflow_status_of decode_input decode_value r))
            (row_of id db),
        db,
      )
  unfolding get_workflow list_workflows
  get_workflow-row id db h =
      ap (λ x. (x, db))
        (first_to_wire-map (listed_rows (by_id id) db)
          ∙ ap (shown (λ r. workflow_to_wire J (workflow_status_of decode_input decode_value r)))
              (first-listed id db h))
