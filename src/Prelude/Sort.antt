-- ===== src/Prelude/Sort.antt =====
-- ORDER BY: a stable insertion sort, what it keeps, and that its result is in order.
use mathlib.Core.Path.{◌≡◌, refl, ◌∙◌, sym, ap}
use mathlib.Core.Bool.{Bool, true, false}
use mathlib.Core.Logic.{inl, inr}
use mathlib.Core.List.{List, [], ◌∷◌, ◌++◌}
use Prim.Native.Nat.{ℕ, zero, suc}
use native.Mathlib.Omega.{arith}
use dbos_transact_rs.Prelude.Tests.{if◌then◌else◌, Bool-cases}
use dbos_transact_rs.Prelude.Lists.{All, take, drop, take-All}
use dbos_transact_rs.Prelude.Rows.{select, delete, insert}

module _ {ℓ} {R : Type ℓ} (before : R → R → Bool) where
  -- `x` stands behind the rows that are not after it.
  unfoldable pub insert_sorted : R → List R → List R
  insert_sorted x [] = x ∷ []
  insert_sorted x (y ∷ ys) =
      let rest = insert_sorted x ys in if before x y then x ∷ y ∷ ys else y ∷ rest

  unfoldable pub sort_onto : List R → List R → List R
  sort_onto [] acc = acc
  sort_onto (x ∷ xs) acc = sort_onto xs (insert_sorted x acc)

  unfoldable pub sort_by : List R → List R
  unfolding sort_onto insert_sorted
  sort_by xs = sort_onto xs []

module _ {ℓ} {R : Type ℓ} (before : R → R → Bool) where
  All-insert_sorted {κ} :
      (P : R → Type κ) (x : R) (ys : List R) → P x → All P ys → All P (insert_sorted before x ys)
  unfolding insert_sorted
  All-insert_sorted P x [] px h = (px, tt)
  All-insert_sorted P x (y ∷ ys) px h = elim (Bool-cases (before x y)) [
    | inl e ↦ rw e (px, h)
    | inr e ↦ rw e (h.0, All-insert_sorted P x ys px h.1)
  ]

  All-sort_onto {κ} :
      (P : R → Type κ) (xs acc : List R) → All P xs → All P acc → All P (sort_onto before xs acc)
  unfolding sort_onto
  All-sort_onto P [] acc h k = k
  All-sort_onto P (x ∷ xs) acc h k =
      All-sort_onto P xs (insert_sorted before x acc) h.1 (All-insert_sorted P x acc h.0 k)

  -- What holds of every row holds of every sorted row.
  pub All-sort_by {κ} : (P : R → Type κ) (xs : List R) → All P xs → All P (sort_by before xs)
  unfolding sort_by
  All-sort_by P xs h = All-sort_onto P xs [] h tt

  abbrev pub NotAfter : R → R → Type 0
  NotAfter a b = before b a ≡ false

  pub All-NotAfter-insert_sorted :
      (x : R) (ys : List R)
      → All (λ y. before x y ≡ false) ys
      → insert_sorted before x ys ≡ ys ++ x ∷ []
  unfolding insert_sorted
  All-NotAfter-insert_sorted x [] h = refl
  All-NotAfter-insert_sorted x (y ∷ ys) h =
      rw (h.0) (ap (λ t. y ∷ t) (All-NotAfter-insert_sorted x ys h.1))

  sort_onto-insert :
      (x : R) (xs acc : List R)
      → sort_onto before (xs ++ x ∷ []) acc ≡ insert_sorted before x (sort_onto before xs acc)
  unfolding sort_onto
  sort_onto-insert x [] acc = refl
  sort_onto-insert x (y ∷ xs) acc = sort_onto-insert x xs (insert_sorted before y acc)

  -- A row that stands before no other is sorted to the end.
  pub sort_by-insert_last :
      (x : R) (xs : List R)
      → All (λ y. before x y ≡ false) xs
      → sort_by before (insert x xs) ≡ sort_by before xs ++ x ∷ []
  unfolding sort_by insert
  sort_by-insert_last x xs h =
      sort_onto-insert x xs []
      ∙ All-NotAfter-insert_sorted x (sort_onto before xs [])
          (All-sort_onto (λ y. before x y ≡ false) xs [] h tt)

  -- Each row stands before no row in front of it.
  abbrev pub IsSorted : List R → Type 0
  IsSorted [] = Unit
  IsSorted (x ∷ xs) = All (NotAfter x) xs × IsSorted xs

  -- `before` is a strict weak order.
  pub record IsOrder : Type ℓ where
    pub asym : (a b : R) → before a b ≡ true → before b a ≡ false
    pub trans : (a b c : R) → before a b ≡ true → before c b ≡ false → before c a ≡ false
    pub below : (a b c : R) → before a b ≡ true → before c b ≡ false → before a c ≡ true

module _ {ℓ} {R : Type ℓ} (before : R → R → Bool) (o : IsOrder before) where
  All-before :
      (x y : R) (ys : List R)
      → before x y ≡ true
      → All (NotAfter before y) ys
      → All (NotAfter before x) ys
  All-before x y [] h k = tt
  All-before x y (z ∷ ys) h k = (o.trans x y z h k.0, All-before x y ys h k.1)

  insert_sorted-IsSorted :
      (x : R) (ys : List R) → IsSorted before ys → IsSorted before (insert_sorted before x ys)
  unfolding insert_sorted
  insert_sorted-IsSorted x [] h = (tt, tt)
  insert_sorted-IsSorted x (y ∷ ys) h = elim (Bool-cases (before x y)) [
    | inl e ↦ rw e ((o.asym x y e, All-before x y ys e h.0), h)
    | inr e ↦
        rw e
          (All-insert_sorted before (NotAfter before y) x ys e h.0, insert_sorted-IsSorted x ys h.1)
  ]

  sort_onto-IsSorted :
      (xs acc : List R) → IsSorted before acc → IsSorted before (sort_onto before xs acc)
  unfolding sort_onto
  sort_onto-IsSorted [] acc h = h
  sort_onto-IsSorted (x ∷ xs) acc h =
      sort_onto-IsSorted xs (insert_sorted before x acc) (insert_sorted-IsSorted x acc h)

  insert_sorted-front :
      (x : R) (ys : List R) → All (λ y. before x y ≡ true) ys → insert_sorted before x ys ≡ x ∷ ys
  unfolding insert_sorted
  insert_sorted-front x [] h = refl
  insert_sorted-front x (y ∷ ys) h = rw (h.0) refl

  All-before-true :
      (x y : R) (ys : List R)
      → before x y ≡ true
      → All (NotAfter before y) ys
      → All (λ z. before x z ≡ true) ys
  All-before-true x y [] h k = tt
  All-before-true x y (z ∷ ys) h k = (o.below x y z h k.0, All-before-true x y ys h k.1)

  All-delete {κ} : (P : R → Type κ) (p : R → Bool) (ys : List R) → All P ys → All P (delete p ys)
  unfolding delete
  All-delete P p [] h = tt
  All-delete P p (y ∷ ys) h = elim (Bool-cases (p y)) [
    | inl e ↦ rw e (All-delete P p ys h.1)
    | inr e ↦ rw e (h.0, All-delete P p ys h.1)
  ]

  delete-insert_sorted :
      (p : R → Bool) (x : R) (ys : List R)
      → IsSorted before ys
      → delete p (insert_sorted before x ys)
        ≡ (if p x then delete p ys else insert_sorted before x (delete p ys))
  unfolding insert_sorted delete
  delete-insert_sorted p x [] h = refl
  delete-insert_sorted p x (y ∷ ys) h = elim (Bool-cases (before x y)) [
    | inl e ↦ ground (
      arith,
      insert_sorted-front x (delete p ys)
          (All-delete (λ z. before x z ≡ true) p ys (All-before-true x y ys e h.0)),
    )
    | inr e ↦ ground (arith, delete-insert_sorted p x ys h.1)
  ]

  delete-sort_onto :
      (p : R → Bool) (xs acc : List R)
      → IsSorted before acc
      → delete p (sort_onto before xs acc) ≡ sort_onto before (delete p xs) (delete p acc)
  unfolding sort_onto delete
  delete-sort_onto p [] acc h = refl
  delete-sort_onto p (x ∷ xs) acc h =
      delete-sort_onto p xs (insert_sorted before x acc) (insert_sorted-IsSorted x acc h)
      ∙ rw (delete-insert_sorted p x acc h) (ground arith)

  -- Sorting what is left is leaving the rest of what is sorted.
  pub delete-sort_by :
      (p : R → Bool) (xs : List R) → sort_by before (delete p xs) ≡ delete p (sort_by before xs)
  unfolding sort_by delete
  delete-sort_by p xs = sym (delete-sort_onto p xs [] tt)

  pub sort_by-IsSorted : (xs : List R) → IsSorted before (sort_by before xs)
  unfolding sort_by
  sort_by-IsSorted xs = sort_onto-IsSorted xs [] tt

module _ {ℓ} {R : Type ℓ} (before : R → R → Bool) where
  -- Of a sorted list, no row behind the cut stands before a row in front of it.
  pub take-drop-NotAfter :
      (n : ℕ) (xs : List R)
      → IsSorted before xs
      → All (λ a. All (NotAfter before a) (drop n xs)) (take n xs)
  take-drop-NotAfter zero xs h = tt
  take-drop-NotAfter (suc n) [] h = tt
  take-drop-NotAfter (suc n) (x ∷ xs) h = (All-drop n xs h.0, take-drop-NotAfter n xs h.1)
    where
      All-drop :
          (n : ℕ) (xs : List R) → All (NotAfter before x) xs → All (NotAfter before x) (drop n xs)
      All-drop zero xs h = h
      All-drop (suc n) [] h = tt
      All-drop (suc n) (y ∷ ys) h = All-drop n ys h.1

  pub All-select {κ} :
      (P : R → Type κ) (q : R → Bool) (ys : List R) → All P ys → All P (select q ys)
  unfolding select
  All-select P q [] h = tt
  All-select P q (y ∷ ys) h = elim (Bool-cases (q y)) [
    | inl e ↦ rw e (h.0, All-select P q ys h.1)
    | inr e ↦ rw e (All-select P q ys h.1)
  ]

  -- What is picked from a sorted list is sorted.
  pub select-IsSorted :
      (q : R → Bool) (xs : List R) → IsSorted before xs → IsSorted before (select q xs)
  unfolding select
  select-IsSorted q [] h = tt
  select-IsSorted q (x ∷ xs) h = elim (Bool-cases (q x)) [
    | inl e ↦ rw e (All-select (NotAfter before x) q xs h.0, select-IsSorted q xs h.1)
    | inr e ↦ rw e (select-IsSorted q xs h.1)
  ]

  pub take-IsSorted : (n : ℕ) (xs : List R) → IsSorted before xs → IsSorted before (take n xs)
  take-IsSorted zero xs h = tt
  take-IsSorted (suc n) [] h = tt
  take-IsSorted (suc n) (x ∷ xs) h = (take-All (NotAfter before x) n xs h.0, take-IsSorted n xs h.1)
