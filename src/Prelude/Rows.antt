-- ===== src/Prelude/Rows.antt =====
-- A table is the list of its rows; the SQL statements over it, with their laws.
use mathlib.Core.Bool.{Bool}
use mathlib.Core.Option.{Option, none, some}
use mathlib.Core.List.{List, [], ◌∷◌, ◌++◌}
use Prim.Native.Nat.{ℕ, suc}
use dbos_transact_rs.Prelude.Tests.{if◌then◌else◌}

module _ {ℓ} {R : Type ℓ} where
  -- SELECT … WHERE p
  unfoldable pub select : (R → Bool) → List R → List R
  select p [] = []
  select p (r ∷ rs) = let rest = select p rs in if p r then r ∷ rest else rest

  -- SELECT … WHERE p, of which the first row is fetched
  unfoldable pub find : (R → Bool) → List R → Option R
  find p [] = none
  find p (r ∷ rs) = if p r then some r else find p rs

  -- SELECT COUNT(*) WHERE p
  unfoldable pub count : (R → Bool) → List R → ℕ
  count p [] = 0
  count p (r ∷ rs) = let rest = count p rs in if p r then suc rest else rest

  abbrev pub apply_if : (R → Bool) → (R → R) → R → R
  apply_if p f r = if p r then f r else r

  -- UPDATE … SET f WHERE p
  unfoldable pub update : (R → Bool) → (R → R) → List R → List R
  update p f [] = []
  update p f (r ∷ rs) = apply_if p f r ∷ update p f rs

  -- DELETE … WHERE p
  unfoldable pub delete : (R → Bool) → List R → List R
  delete p [] = []
  delete p (r ∷ rs) = let rest = delete p rs in if p r then rest else r ∷ rest

  -- INSERT
  unfoldable pub insert : R → List R → List R
  insert r rows = rows ++ r ∷ []
