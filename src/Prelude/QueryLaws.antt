-- ===== src/Prelude/QueryLaws.antt =====
-- Queries of queries, and queries by a key that at most one row has.
use mathlib.Core.Path.{◌≡◌, refl}
use mathlib.Core.Bool.{Bool, true, false, ◌&&◌}
use mathlib.Core.Option.{Option, none, some}
use mathlib.Core.Option
use mathlib.Core.List.{List, [], ◌∷◌, ◌++◌, map}
use Prim.Native.Nat.{◌≤◌}
use native.Mathlib.Omega.{arith}
use dbos_transact_rs.Prelude.Tests.{if◌then◌else◌, or_else}
use dbos_transact_rs.Prelude.Rows.{select, find, count, update, delete, insert}

module _ {ℓ} {R : Type ℓ} where
  pub select-insert :
      (q : R → Bool) (r : R) (rs : List R)
      → select q (insert r rs) ≡ (if q r then insert r (select q rs) else select q rs)
  unfolding select insert
  select-insert q r [] = refl
  select-insert q r (x ∷ rs) = ground (arith, select-insert q r rs)

  -- An update that takes its rows out of a query deletes them from its result.
  pub select-update_out :
      (q p : R → Bool) (f : R → R)
      → ((r : R) → p r ≡ true → q (f r) ≡ false)
      → (rs : List R) → select q (update p f rs) ≡ delete p (select q rs)
  unfolding select update delete
  select-update_out q p f out [] = refl
  select-update_out q p f out (r ∷ rs) = ground (arith, out r, select-update_out q p f out rs)

  pub delete-count_zero : (p : R → Bool) (rs : List R) → count p rs ≡ 0 → delete p rs ≡ rs
  unfolding delete count
  delete-count_zero p [] h = refl
  delete-count_zero p (r ∷ rs) h = ground (arith, delete-count_zero p rs)

  pub count-select-le : (p q : R → Bool) (rs : List R) → count p (select q rs) ≤ count p rs
  unfolding count select
  count-select-le p q [] = omega arith
  count-select-le p q (r ∷ rs) = ground (arith, count-select-le p q rs)

  -- Where at most one row has a key, a query that keeps it finds it.
  pub find-select :
      (p q : R → Bool) (rs : List R)
      → count p rs ≤ 1
      → 1 ≤ count p (select q rs)
      → find p rs ≡ find p (select q rs)
  unfolding count select find
  find-select p q [] h k = refl
  find-select p q (r ∷ rs) h k = ground (arith, find-select p q rs, count-select-le p q rs)

  pub find-count_zero : (p : R → Bool) (rs : List R) → count p rs ≡ 0 → find p rs ≡ none
  unfolding count find
  find-count_zero p [] h = refl
  find-count_zero p (r ∷ rs) h = ground (arith, find-count_zero p rs)

  pub find-append :
      (p : R → Bool) (xs ys : List R) → find p (xs ++ ys) ≡ or_else (find p xs) (find p ys)
  unfolding find
  find-append p [] ys = refl
  find-append p (x ∷ xs) ys = ground (arith, find-append p xs ys)

  pub find-map {κ} :
      {S : Type κ} (p : R → Bool) (f : S → R) (xs : List S)
      → find p (map f xs) ≡ Option.map f (find (λ x. p (f x)) xs)
  unfolding find
  find-map p f [] = refl
  find-map p f (x ∷ xs) = ground (arith, find-map p f xs)

  -- A query of a query's result is a query with both conditions.
  pub find-select_if :
      (p q c : R → Bool)
      → ((r : R) → (p r && q r) ≡ c r)
      → (rs : List R) → find q (select p rs) ≡ find c rs
  unfolding find select
  find-select_if p q c both [] = refl
  find-select_if p q c both (r ∷ rs) = ground (arith, both r, find-select_if p q c both rs)

  pub find-and :
      (b : Bool) (p : R → Bool) (rs : List R)
      → find (λ r. b && p r) rs ≡ (if b then find p rs else none)
  unfolding find
  find-and b p [] = ground arith
  find-and b p (r ∷ rs) = ground (arith, find-and b p rs)

  pub find-absent : (p : R → Bool) → ((r : R) → p r ≡ false) → (rs : List R) → find p rs ≡ none
  unfolding find
  find-absent p absent [] = refl
  find-absent p absent (r ∷ rs) = ground (arith, absent r, find-absent p absent rs)

  pub count-delete-le : (q p : R → Bool) (rs : List R) → count q (delete p rs) ≤ count q rs
  unfolding count delete
  count-delete-le q p [] = omega arith
  count-delete-le q p (r ∷ rs) = ground (arith, count-delete-le q p rs)

  -- Where at most one row has a key, deleting rows deletes that row or leaves what the key finds.
  pub find-delete_if :
      (q p : R → Bool) (rs : List R) (r : R)
      → count q rs ≤ 1
      → find q rs ≡ some r
      → find q (delete p rs) ≡ (if p r then none else some r)
  unfolding find delete count
  find-delete_if q p [] r u h = cc
  find-delete_if q p (x ∷ rs) r u h =
      ground
        (arith, find-delete_if q p rs r, find-count_zero q (delete p rs), count-delete-le q p rs)

  -- A query for deleted rows only finds nothing.
  pub find-delete_all :
      (q p : R → Bool)
      → ((r : R) → q r ≡ true → p r ≡ true)
      → (rs : List R) → find q (delete p rs) ≡ none
  unfolding find delete
  find-delete_all q p gone [] = refl
  find-delete_all q p gone (r ∷ rs) = ground (arith, gone r, find-delete_all q p gone rs)
