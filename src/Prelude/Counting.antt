-- ===== src/Prelude/Counting.antt =====
-- Rows counted: what a filter, a map, a concatenation and a prefix keep.
use Prim.Native.Nat.{ℕ, zero, suc, ◌+◌, ◌≤◌}
use mathlib.Core.Path.{◌≡◌, refl, ◌∙◌, ap}
use mathlib.Core.Logic.{◌⊎◌, inl, inr}
use mathlib.Core.Bool.{Bool, true, false, not, ◌&&◌}
use mathlib.Core.Option.{Option, some}
use mathlib.Core.List.{List, [], ◌∷◌, ◌++◌, map}
use native.Mathlib.Omega.{arith}
use dbos_transact_rs.Prelude.Tests.{if◌then◌else◌}
use dbos_transact_rs.Prelude.Lists.{length, take}
use dbos_transact_rs.Prelude.Rows.{select, find, count, update}

module _ {R : Type 0} where
  found_first :
      (b : Bool) (x r : R) (o : Option R)
      → (if b then some x else o) ≡ some r
      → ((b ≡ true) × (x ≡ r)) ⊎ ((b ≡ false) × (o ≡ some r))
  found_first true x r o h = inl (refl, some_injective h)
    where
      some_injective : {a b : R} → some a ≡ some b → a ≡ b
      some_injective e = cc e
  found_first false x r o h = inr (refl, h)

  pub find-refined :
      (p q : R → Bool) (xs : List R) (r : R)
      → find p xs ≡ some r
      → q r ≡ true
      → find (λ x. p x && q x) xs ≡ some r
  unfolding find
  find-refined p q [] r h k = h
  find-refined p q (x ∷ xs) r h k = elim (found_first (p x) x r (find p xs) h) [
    | inl (e, same) ↦ rw e (rw (ap q same ∙ k) (ap some same))
    | inr (e, later) ↦ rw e (find-refined p q xs r later k)
  ]

  pub count-find_and :
      (p q : R → Bool) (xs : List R) (r : R)
      → find p xs ≡ some r
      → q r ≡ true
      → 1 ≤ count (λ x. p x && q x) xs
  unfolding find count
  count-find_and p q [] r h k = cc
  count-find_and p q (x ∷ xs) r h k = elim (found_first (p x) x r (find p xs) h) [
    | inl (e, same) ↦ rw e (rw (ap q same ∙ k) (omega arith))
    | inr (e, later) ↦ rw e (count-find_and p q xs r later k)
  ]

  pub count-select :
      (p q : R → Bool) (xs : List R) → count p (select q xs) ≡ count (λ x. p x && q x) xs
  unfolding count select
  count-select p q [] = refl
  count-select p q (x ∷ xs) = ground (arith, count-select p q xs)

  pub length-select : (q : R → Bool) (xs : List R) → length (select q xs) ≡ count q xs
  unfolding count select
  length-select q [] = refl
  length-select q (x ∷ xs) = ground (arith, length-select q xs)

  pub length-count : (xs : List R) → length xs ≡ count (λ _. true) xs
  unfolding count
  length-count [] = refl
  length-count (x ∷ xs) = omega (arith, length-count xs)

  pub count-le-length : (q : R → Bool) (xs : List R) → count q xs ≤ length xs
  unfolding count
  count-le-length q [] = omega arith
  count-le-length q (x ∷ xs) = ground (arith, count-le-length q xs)

  pub take_all : (n : ℕ) (xs : List R) → length xs ≤ n → take n xs ≡ xs
  take_all zero [] h = refl
  take_all zero (x ∷ xs) h = absurd (omega (arith, h))
  take_all (suc n) [] h = refl
  take_all (suc n) (x ∷ xs) h = ap (λ t. x ∷ t) (take_all n xs (omega (arith, h)))

  pub count-map :
      {S : Type 0} (p : S → Bool) (f : R → S) (xs : List R)
      → count p (map f xs) ≡ count (λ x. p (f x)) xs
  unfolding count
  count-map p f [] = refl
  count-map p f (x ∷ xs) = ground (arith, count-map p f xs)

  pub count-front : (p : R → Bool) (xs ys : List R) → count p xs ≤ count p (xs ++ ys)
  unfolding count
  count-front p [] ys = omega arith
  count-front p (x ∷ xs) ys = ground (arith, count-front p xs ys)

  pub count-back : (p : R → Bool) (xs ys : List R) → count p ys ≤ count p (xs ++ ys)
  unfolding count
  count-back p [] ys = omega arith
  count-back p (x ∷ xs) ys = ground (arith, count-back p xs ys)

  pub count-cong :
      (p q : R → Bool) → ((x : R) → p x ≡ q x) → (xs : List R) → count p xs ≡ count q xs
  unfolding count
  count-cong p q same [] = refl
  count-cong p q same (x ∷ xs) = ground (arith, same x, count-cong p q same xs)

  -- An update that brings its rows into a count, if those are of a kind that the count takes.
  pub count-update_in :
      (q p kind : R → Bool) (f : R → R)
      → ((r : R) → p r ≡ true → q r ≡ false)
      → ((r : R) → p r ≡ true → kind r ≡ true → q (f r) ≡ true)
      → (rows : List R) → count (λ r. p r && not (kind r)) rows ≡ 0
      → count q (update p f rows) ≡ count q rows + count p rows
  unfolding count update
  count-update_in q p kind f out into [] h = refl
  count-update_in q p kind f out into (r ∷ rows) h =
      ground (arith, out r, into r, count-update_in q p kind f out into rows, h)

  -- An update that takes its rows out of a count.
  pub count-update_out :
      (q p : R → Bool) (f : R → R)
      → ((r : R) → p r ≡ true → q (f r) ≡ false)
      → (rows : List R) → count q (update p f rows) ≤ count q rows
  unfolding count update
  count-update_out q p f out [] = omega arith
  count-update_out q p f out (r ∷ rows) = ground (arith, out r, count-update_out q p f out rows)

  pub count-split :
      (p q : R → Bool) (rows : List R)
      → count (λ r. p r && q r) rows + count (λ r. p r && not (q r)) rows ≡ count p rows
  unfolding count
  count-split p q [] = refl
  count-split p q (r ∷ rows) = ground (arith, count-split p q rows)
