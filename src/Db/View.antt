-- ===== src/Db/View.antt =====
-- What the other modules read off the table `workflow_status`, row by row.
use dbos_transact_rs.Prelude.{
  ap, ◌==◌, ◌≤◌, count, count-update, refl, ◌∙◌, String, ◌≡◌, ◌≢◌, refl, Bool, true, false, Option,
  List, arith, ◌==◌, eq_iff, find, update, find-update, find-update_apart, apply_if,
}
use mathlib.Core.Option
use dbos_transact_rs.Exec.Relates.{Preorder}
use dbos_transact_rs.Db.Row.{WorkflowRow, has_id}
use dbos_transact_rs.Db.Tables.{Db}

-- The row of `id`.
abbrev pub row_of : String → Db → Option WorkflowRow
row_of id db = find (has_id id) db.workflow_status

-- The row of `id` stays what it was.
abbrev pub Frame : String → Preorder Db
Frame id = record {
  rel = λ s t. row_of id t ≡ row_of id s;
  same = λ s. refl;
  then_rel = λ s t u p q. q ∙ p;
}

-- An update that keeps the primary key.
abbrev pub KeepsId : (WorkflowRow → WorkflowRow) → Type 0
KeepsId f = (r : WorkflowRow) → (f r).workflow_uuid ≡ r.workflow_uuid

module _ (p : WorkflowRow → Bool) (f : WorkflowRow → WorkflowRow) (keeps : KeepsId f) where
  pub row_of-update :
      (id : String) (rows : List WorkflowRow)
      → find (has_id id) (update p f rows) ≡ Option.map (apply_if p f) (find (has_id id) rows)
  row_of-update id rows = find-update (has_id id) p f (λ r. rw (keeps r)) rows

  -- Where the update picks its rows by another id, the row of `id` stays.
  pub row_of-update_ne :
      (id : String)
      → ((r : WorkflowRow) → has_id id r ≡ true → p r ≡ false)
      → (rows : List WorkflowRow) → find (has_id id) (update p f rows) ≡ find (has_id id) rows
  row_of-update_ne id apart rows =
      find-update_apart (has_id id) p f apart (λ r h. rw (keeps r) h) rows

pub has_id_apart :
    (k id : String) → k ≢ id → (r : WorkflowRow) → has_id id r ≡ true → has_id k r ≡ false
has_id_apart k id ne r h = ground (arith, ne, eq_iff r.workflow_uuid id, eq_iff r.workflow_uuid k)

-- The primary key of `workflow_status`.
abbrev pub UniqueIds : Db → Type 0
UniqueIds db = (id : String) → count (has_id id) db.workflow_status ≤ 1

pub UniqueIds-update :
    (p : WorkflowRow → Bool) (f : WorkflowRow → WorkflowRow)
    → KeepsId f
    → (rows : List WorkflowRow) (id : String)
    → count (has_id id) (update p f rows) ≡ count (has_id id) rows
UniqueIds-update p f keeps rows id =
    count-update (has_id id) p f (λ r _. ap (λ k. k == id) (keeps r)) rows
