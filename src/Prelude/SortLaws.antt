-- ===== src/Prelude/SortLaws.antt =====
-- What sorting keeps: how many rows of each kind there are, and which is found by a key.
use mathlib.Core.Path.{◌≡◌, refl, ◌∙◌}
use mathlib.Core.Bool.{Bool}
use mathlib.Core.List.{List, [], ◌∷◌}
use mathlib.Core.Option.{Option, none, some}
use Prim.Native.Nat.{suc, ◌+◌, ◌≤◌}
use native.Mathlib.Omega.{arith}
use dbos_transact_rs.Prelude.Tests.{if◌then◌else◌, Option-cases, or_else}
use dbos_transact_rs.Prelude.Rows.{count, find}
use dbos_transact_rs.Prelude.QueryLaws.{find-count_zero}
use dbos_transact_rs.Prelude.Sort.{insert_sorted, sort_onto, sort_by}

module _ {ℓ} {R : Type ℓ} (before : R → R → Bool) where
  count-insert_sorted :
      (q : R → Bool) (x : R) (ys : List R)
      → count q (insert_sorted before x ys) ≡ (if q x then suc (count q ys) else count q ys)
  unfolding insert_sorted count
  count-insert_sorted q x [] = refl
  count-insert_sorted q x (y ∷ ys) = ground (arith, count-insert_sorted q x ys)

  count-sort_onto :
      (q : R → Bool) (xs acc : List R)
      → count q (sort_onto before xs acc) ≡ count q xs + count q acc
  unfolding sort_onto count
  count-sort_onto q [] acc = ground arith
  count-sort_onto q (x ∷ xs) acc =
      count-sort_onto q xs (insert_sorted before x acc)
      ∙ ground (arith, count-insert_sorted q x acc)

  -- Sorting keeps, of each kind, as many rows.
  pub count-sort_by : (q : R → Bool) (xs : List R) → count q (sort_by before xs) ≡ count q xs
  unfolding sort_by count
  count-sort_by q xs = count-sort_onto q xs [] ∙ ground arith

  find-insert_sorted :
      (p : R → Bool) (x : R) (ys : List R)
      → count p (x ∷ ys) ≤ 1
      → find p (insert_sorted before x ys) ≡ find p (x ∷ ys)
  unfolding insert_sorted count find
  find-insert_sorted p x [] h = refl
  find-insert_sorted p x (y ∷ ys) h =
      ground (arith, find-insert_sorted p x ys, find-count_zero p ys)

  find-sort_onto :
      (p : R → Bool) (xs acc : List R)
      → count p xs + count p acc ≤ 1
      → find p (sort_onto before xs acc) ≡ or_else (find p xs) (find p acc)
  unfolding sort_onto count find
  find-sort_onto p [] acc h = refl
  find-sort_onto p (x ∷ xs) acc h =
      find-sort_onto p xs (insert_sorted before x acc) (ground (arith, count-insert_sorted p x acc))
      ∙ ground (
        arith,
        find-insert_sorted p x acc,
        find-count_zero p xs,
        find-count_zero p acc,
        Option-cases (find p xs),
      )

  -- Where at most one row has a key, sorting does not change which is found by it.
  pub find-sort_by :
      (p : R → Bool) (xs : List R) → count p xs ≤ 1 → find p (sort_by before xs) ≡ find p xs
  unfolding sort_by count find
  find-sort_by p xs h = find-sort_onto p xs [] (ground arith) ∙ at_end (find p xs)
    where
      at_end : (o : Option R) → or_else o none ≡ o
      at_end none = refl
      at_end (some r) = refl
