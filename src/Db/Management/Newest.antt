-- ===== src/Db/Management/Newest.antt =====
-- The cutoff that a number of rows to keep gives: the creation of the last of the newest rows.
use dbos_transact_rs.Prelude.{
  ℕ, zero, suc, ◌-◌, ◌≤◌, ◌≡◌, refl, ap, ◌∙◌, Bool, true, false, Option, none, some, List, [], ◌∷◌,
  arith, All, count, find, drop, leb, ltb, ◌&&◌, ◌||◌, Bool-cases, inl, inr,
}
use mathlib.Core.Option
use dbos_transact_rs.Prelude.Sort.{sort_by, IsOrder, IsSorted, sort_by-IsSorted}
use dbos_transact_rs.Prelude.SortLaws.{count-sort_by}
use dbos_transact_rs.Db.Row.{WorkflowRow}
use dbos_transact_rs.Db.Tables.{Db}
use dbos_transact_rs.Db.Management.List.{listed_before}
use dbos_transact_rs.Db.Management.Retire.{latest, rows_cutoff, effective_cutoff}

listed_before-IsOrder : (desc : Bool) → IsOrder (listed_before desc)
unfolding listed_before
listed_before-IsOrder desc = record {
  asym = λ a b h. ground (arith, h);
  trans = λ a b c h k. ground (arith, h, k);
  below = λ a b c h k. ground (arith, h, k);
}

-- Whether a row was created before an optional time.
abbrev pub created_before : ℕ → Option ℕ → Bool
created_before t none = false
created_before t (some cutoff) = ltb t cutoff

abbrev created_at_of : Option WorkflowRow → Option ℕ
created_at_of none = none
created_at_of (some y) = some y.created_at

-- How many rows were created after a time.
abbrev pub num_newer : ℕ → List WorkflowRow → ℕ
num_newer t rows = count (λ y. ltb t y.created_at) rows

-- Whether at least `threshold` rows were created after a time, if a positive number is given.
abbrev pub outnumbered : ℕ → Option ℕ → List WorkflowRow → Bool
outnumbered t none rows = false
outnumbered t (some threshold) rows = ltb 0 threshold && leb threshold (num_newer t rows)

none_newer :
    (t : ℕ) (x : WorkflowRow) (rows : List WorkflowRow)
    → All (λ y. listed_before true y x ≡ false) rows
    → ltb t x.created_at ≡ false
    → num_newer t rows ≡ 0
unfolding count listed_before
none_newer t x [] h k = refl
none_newer t x (y ∷ rows) h k = ground (arith, h.0, k, none_newer t x rows h.1 k)

-- In rows that stand by descending creation, the row behind `n` others is newer than a time exactly
-- if more than `n` rows are.
newer_at :
    (t n : ℕ) (rows : List WorkflowRow)
    → IsSorted (listed_before true) rows
    → created_before t (created_at_of (find (λ _. true) (drop n rows)))
      ≡ leb (suc n) (num_newer t rows)
unfolding count find
newer_at t zero [] h = ground arith
newer_at t (suc n) [] h = ground arith
newer_at t zero (x ∷ rows) h = elim (Bool-cases (ltb t x.created_at)) [
  | inl e ↦ rw e (ground arith)
  | inr e ↦ rw e (rw (none_newer t x rows h.0 e) (ground arith))
]
newer_at t (suc n) (x ∷ rows) h = elim (Bool-cases (ltb t x.created_at)) [
  | inl e ↦ rw e (newer_at t n rows h.1 ∙ ground arith)
  | inr e ↦ rw e (newer_at t n rows h.1 ∙ rw (none_newer t x rows h.0 e) (ground arith))
]

created_before-max :
    (t : ℕ) (c r : Option ℕ)
    → created_before t (latest c r) ≡ (created_before t c || created_before t r)
created_before-max t none none = refl
created_before-max t none (some r) = refl
created_before-max t (some c) none = ground arith
created_before-max t (some c) (some r) = ground arith

created_before-rows_cutoff :
    (t threshold : ℕ) (db : Db)
    → 1 ≤ threshold
    → created_before t (rows_cutoff threshold db) ≡ leb threshold (num_newer t db.workflow_status)
unfolding rows_cutoff
created_before-rows_cutoff t threshold db h =
    let all = db.workflow_status in
    let sorted = sort_by (listed_before true) all in
    at_created (find (λ _. true) (drop (threshold - 1) sorted))
    ∙ newer_at t (threshold - 1) sorted
        (sort_by-IsSorted (listed_before true) (listed_before-IsOrder true) all)
    ∙ rw (count-sort_by (listed_before true) (λ y. ltb t y.created_at) all) (ground (arith, h))
  where
    at_created :
        (o : Option WorkflowRow)
        → created_before t (Option.map (λ r. r.created_at) o) ≡ created_before t (created_at_of o)
    at_created none = refl
    at_created (some y) = refl

-- A row was created before the effective cutoff exactly if it was created before the cutoff that is
-- asked for, or at least as many rows as are to be kept were created after it.
pub created_before-effective_cutoff :
    (t : ℕ) (cutoff threshold : Option ℕ) (db : Db)
    → created_before t (effective_cutoff cutoff threshold db)
      ≡ (created_before t cutoff || outnumbered t threshold db.workflow_status)
unfolding effective_cutoff
created_before-effective_cutoff t cutoff none db = ground arith
created_before-effective_cutoff t cutoff (some threshold) db = elim (Bool-cases (ltb 0 threshold)) [
  | inl e ↦ rw e (
      created_before-max t cutoff (rows_cutoff threshold db)
      ∙ ap (λ b. created_before t cutoff || b)
          (created_before-rows_cutoff t threshold db (ground (arith, e))))
  | inr e ↦ rw e (ground arith)
]
