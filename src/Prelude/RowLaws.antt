-- ===== src/Prelude/RowLaws.antt =====
-- The statements of Rows against each other: what a query finds and counts after an update, an insert
-- or a deletion.
use mathlib.Core.Path.{◌≡◌, refl}
use mathlib.Core.Bool.{Bool, true, false}
use mathlib.Core.Option.{Option, none, some}
use mathlib.Core.Option
use mathlib.Core.List.{List, [], ◌∷◌}
use Prim.Native.Nat.{◌+◌, ◌≤◌}
use native.Mathlib.Omega.{arith}
use dbos_transact_rs.Prelude.Tests.{if◌then◌else◌, or_else}
use dbos_transact_rs.Prelude.Lists.{length}
use dbos_transact_rs.Prelude.Rows.{find, count, apply_if, update, delete, insert}

module _ {ℓ} {R : Type ℓ} where
  -- An update that keeps what a query reads is seen by it row by row.
  pub find-update :
      (q p : R → Bool) (f : R → R)
      → ((r : R) → q (f r) ≡ q r)
      → (rs : List R) → find q (update p f rs) ≡ Option.map (apply_if p f) (find q rs)
  unfolding find update
  find-update q p f keeps [] = refl
  find-update q p f keeps (r ∷ rs) = ground (arith, keeps r, find-update q p f keeps rs)

  pub count-update :
      (q p : R → Bool) (f : R → R)
      → ((r : R) → p r ≡ true → q (f r) ≡ q r)
      → (rs : List R) → count q (update p f rs) ≡ count q rs
  unfolding count update
  count-update q p f keeps [] = refl
  count-update q p f keeps (r ∷ rs) = ground (arith, keeps r, count-update q p f keeps rs)

  pub length-update : (p : R → Bool) (f : R → R) (rs : List R) → length (update p f rs) ≡ length rs
  unfolding update
  length-update p f [] = refl
  length-update p f (r ∷ rs) = omega (arith, length-update p f rs)

  pub find-insert :
      (q : R → Bool) (r : R) (rs : List R)
      → find q (insert r rs) ≡ or_else (find q rs) (if q r then some r else none)
  unfolding find insert
  find-insert q r [] = refl
  find-insert q r (x ∷ rs) = ground (arith, find-insert q r rs)

  pub find-delete :
      (q p : R → Bool)
      → ((r : R) → q r ≡ true → p r ≡ false)
      → (rs : List R) → find q (delete p rs) ≡ find q rs
  unfolding find delete
  find-delete q p apart [] = refl
  find-delete q p apart (r ∷ rs) = ground (arith, apart r, find-delete q p apart rs)

  -- A row that is found satisfies the query.
  pub find-holds : (q : R → Bool) (rs : List R) (r : R) → find q rs ≡ some r → q r ≡ true
  unfolding find
  find-holds q [] r h = cc
  find-holds q (x ∷ rs) r h = ground (arith, find-holds q rs r)

  pub count-insert :
      (q : R → Bool) (r : R) (rs : List R)
      → count q (insert r rs) ≡ count q rs + (if q r then 1 else 0)
  unfolding count insert
  count-insert q r [] = ground arith
  count-insert q r (x ∷ rs) = ground (arith, count-insert q r rs)

  -- An update of other rows is not seen by a query.
  pub find-update_apart :
      (q p : R → Bool) (f : R → R)
      → ((r : R) → q r ≡ true → p r ≡ false)
      → ((r : R) → q r ≡ false → q (f r) ≡ false)
      → (rs : List R) → find q (update p f rs) ≡ find q rs
  unfolding find update
  find-update_apart q p f apart keeps [] = refl
  find-update_apart q p f apart keeps (r ∷ rs) =
      ground (arith, apart r, keeps r, find-update_apart q p f apart keeps rs)

  -- An update makes a query find at most the updated rows in addition.
  pub count-update-le :
      (q p : R → Bool) (f : R → R) (rs : List R) → count q (update p f rs) ≤ count q rs + count p rs
  unfolding count update
  count-update-le q p f [] = omega arith
  count-update-le q p f (r ∷ rs) = ground (arith, count-update-le q p f rs)

  pub count_mono :
      (p q : R → Bool)
      → ((r : R) → p r ≡ true → q r ≡ true)
      → (rs : List R) → count p rs ≤ count q rs
  unfolding count
  count_mono p q sub [] = omega arith
  count_mono p q sub (r ∷ rs) = ground (arith, sub r, count_mono p q sub rs)

  -- What is not found is not counted, and the other way round.
  pub count-find-none : (p : R → Bool) (rs : List R) → find p rs ≡ none → count p rs ≡ 0
  unfolding count find
  count-find-none p [] h = refl
  count-find-none p (r ∷ rs) h = ground (arith, count-find-none p rs)

  pub count-find-some : (p : R → Bool) (rs : List R) (r : R) → find p rs ≡ some r → 1 ≤ count p rs
  unfolding count find
  count-find-some p [] r h = cc
  count-find-some p (x ∷ rs) r h = ground (arith, count-find-some p rs r)
