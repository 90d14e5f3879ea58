-- ===== src/Exec/Relates.antt =====
-- Operations whose state before and state after stand in a preorder, one rule for each way to
-- build an operation. An invariant is the preorder `P s → P t`.
use dbos_transact_rs.Prelude.{◌≡◌, refl, Bool, true, false, if◌then◌else◌}
use dbos_transact_rs.Error.DbosError.{DbosError}
use dbos_transact_rs.Exec.{
  Result, ok, err, Exec, pure, raise, query, lift, settle, transaction, ◌>>=◌, proceed,
}

pub record Preorder {ℓ} (S : Type ℓ) : Type (ℓ + 1) where
  pub rel : S → S → Type ℓ
  pub same : (s : S) → rel s s
  pub then_rel : (s t u : S) → rel s t → rel t u → rel s u

-- `m` goes from each state to a related one, whether it returns or fails.
pub record Relates {ℓ} {S A : Type ℓ} (R : Preorder S) (m : Exec S A) : Type ℓ where
  pub at : (s : S) → R.rel s (m s).1

module _ {ℓ} {S A : Type ℓ} (R : Preorder S) where
  pub Relates-pure : (a : A) → Relates R (pure a)
  Relates-pure a = record { at = λ s. R.same s }

  pub Relates-raise : (e : DbosError) → Relates R (raise {A = A} e)
  Relates-raise e = record { at = λ s. R.same s }

  pub Relates-lift : (r : Result A) → Relates R (lift r)
  Relates-lift r = record { at = λ s. R.same s }

  pub Relates-query : (f : S → A) → Relates R (query f)
  Relates-query f = record { at = λ s. R.same s }

  pub Relates-if :
      (b : Bool) (m n : Exec S A) → Relates R m → Relates R n → Relates R (if b then m else n)
  Relates-if true m n hm hn = hm
  Relates-if false m n hm hn = hn

  settle_rel : (s : S) (r : Result A × S) → R.rel s r.1 → R.rel s (settle s r).1
  settle_rel s (ok a, t) h = h
  settle_rel s (err e, t) h = R.same s

  pub Relates-transaction : (m : Exec S A) → Relates R m → Relates R (transaction m)
  Relates-transaction m h = record { at = λ s. settle_rel s (m s) (h.at s) }

module _ {ℓ} {S A B : Type ℓ} (R : Preorder S) where
  proceed_rel :
      (s : S) (r : Result A × S) (f : A → Exec S B)
      → R.rel s r.1
      → ((a : A) → r.0 ≡ ok a → Relates R (f a))
      → R.rel s (proceed r f).1
  proceed_rel s (ok a, t) f h hf = R.then_rel s t (f a t).1 h ((hf a refl).at t)
  proceed_rel s (err e, t) f h hf = h

  pub Relates-bind :
      (m : Exec S A) (f : A → Exec S B)
      → Relates R m
      → ((a : A) → Relates R (f a))
      → Relates R (m >>= f)
  Relates-bind m f hm hf = record { at = λ s. proceed_rel s (m s) f (hm.at s) (λ a _. hf a) }

  -- The rest of a block may use what the lifted result is.
  pub Relates-bind-lift :
      (r : Result A) (f : A → Exec S B)
      → ((a : A) → r ≡ ok a → Relates R (f a))
      → Relates R (lift r >>= f)
  Relates-bind-lift r f hf = record { at = λ s. proceed_rel s (r, s) f (R.same s) hf }
