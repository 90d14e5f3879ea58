-- ===== src/Exec.antt =====
-- Operations on a state that may fail. What was written before an error stays written, as with
-- statements that each commit by themselves; `transaction` takes the writes of a failed block back.
pub mod Relates
use dbos_transact_rs.Prelude.{Bool, true, false, ◌≡◌, refl, ◌⊎◌, inl, inr}
use dbos_transact_rs.Error.DbosError.{DbosError}

pub data Result {ℓ} (A : Type ℓ) : Type ℓ where
  ok : A → Result A
  err : DbosError → Result A

abbrev pub is_ok {ℓ} : {A : Type ℓ} → Result A → Bool
is_ok (ok _) = true
is_ok (err _) = false

pub Result-cases {ℓ} :
    {A : Type ℓ} (r : Result A) → ((a : A) × (r ≡ ok a)) ⊎ ((e : DbosError) × (r ≡ err e))
Result-cases (ok a) = inl (a, refl)
Result-cases (err e) = inr (e, refl)

abbrev pub Exec {ℓ} : Type ℓ → Type ℓ → Type ℓ
Exec S A = S → Result A × S

module _ {ℓ} {S A : Type ℓ} where
  abbrev pub pure : A → Exec S A
  pure a s = (ok a, s)

  abbrev pub raise : DbosError → Exec S A
  raise e s = (err e, s)

  -- A query, which reads only.
  abbrev pub query : (S → A) → Exec S A
  query f s = (ok (f s), s)

  abbrev pub lift : Result A → Exec S A
  lift r s = (r, s)

  -- A successful result keeps the state that was reached, an error the state before the block.
  abbrev pub settle : S → Result A × S → Result A × S
  settle s (ok a, t) = (ok a, t)
  settle s (err e, t) = (err e, s)

  abbrev pub transaction : Exec S A → Exec S A
  transaction m s = settle s (m s)

-- A statement that writes and returns nothing.
abbrev pub write {ℓ} : {S : Type ℓ} → (S → S) → S → Result (Unit {ℓ}) × S
write f s = (ok tt, f s)

module _ {ℓ} {S A B : Type ℓ} where
  abbrev pub proceed : Result A × S → (A → Exec S B) → Result B × S
  proceed (ok a, s) f = f a s
  proceed (err e, s) f = (err e, s)

  infixl 10 ◌>>=◌ ◌>>◌
  abbrev pub ◌>>=◌ : Exec S A → (A → Exec S B) → Exec S B
  ◌>>=◌ m f s = proceed (m s) f

  abbrev pub ◌>>◌ : Exec S A → Exec S B → Exec S B
  m >> n = m >>= λ _. n
