-- ===== src/Runtime/Step/Attempts.antt =====
-- How often a step body runs, and what comes of its attempts.
use dbos_transact_rs.Prelude.{
  ℕ, zero, suc, ◌+◌, String, ◌≡◌, ◌≢◌, refl, ◌∙◌, ◌⊎◌, inl, inr, List, [], ◌∷◌, ◌++◌, arith, eqb,
  ap, false,
}
use native.Mathlib.Numerals.{add-one}
use mathlib.Core.List.{append-nil, append_assoc}
use dbos_transact_rs.Prelude.Int.{pos}
use dbos_transact_rs.Error.DbosError.{DbosError, display, max_step_retries_exceeded}
use dbos_transact_rs.Exec.{Result, ok, err, Exec, Result-cases}
use dbos_transact_rs.Runtime.Step.{join_lines, retry_loop, execute_step_with_retry}

abbrev give_up_of : ℕ → String → String → List String → DbosError
give_up_of max_retries name id errors =
    max_step_retries_exceeded id name (pos max_retries) (join_lines errors)

not_zero : (m : ℕ) → eqb (suc m) 0 ≡ false
not_zero m = ground arith

module _ {W R : Type 0} where
  abbrev after_error : String → (R ⊎ List String) × W → (R ⊎ List String) × W
  after_error s (inl v, w) = (inl v, w)
  after_error s (inr es, w) = (inr (s ∷ es), w)

  abbrev after_attempt : Result R → ((R ⊎ List String) × W) → W → (R ⊎ List String) × W
  after_attempt (ok v) later w = (inl v, w)
  after_attempt (err e) later w = after_error (display e) later

  -- The specification: `n` attempts, up to the first success, or else the texts of all errors.
  abbrev pub attempts : ℕ → Exec W R → W → (R ⊎ List String) × W
  attempts zero run w = (inr [], w)
  attempts (suc n) run w =
      let later = attempts n run (run w).1 in after_attempt (run w).0 later (run w).1

  abbrev settle_with : (List String → DbosError) → (R ⊎ List String) × W → Result R × W
  settle_with give_up (inl v, w) = (ok v, w)
  settle_with give_up (inr es, w) = (err (give_up es), w)

  -- The errors of earlier attempts stand in front.
  abbrev pub prefix_errors : List String → (R ⊎ List String) × W → (R ⊎ List String) × W
  prefix_errors before (inl v, w) = (inl v, w)
  prefix_errors before (inr es, w) = (inr (before ++ es), w)

  prefix-after_error :
      (before : List String) (s : String) (r : (R ⊎ List String) × W)
      → prefix_errors (before ++ s ∷ []) r ≡ prefix_errors before (after_error s r)
  prefix-after_error before s (inl v, w) = refl
  prefix-after_error before s (inr es, w) = rw (append_assoc before (s ∷ []) es)

  one_error : (s : String) (r : (R ⊎ List String) × W) → prefix_errors (s ∷ []) r ≡ after_error s r
  one_error s (inl v, w) = refl
  one_error s (inr es, w) = refl

  retry_loop-attempts :
      (n : ℕ) (run : Exec W R) (give_up : List String → DbosError) (errors : List String) (w : W)
      → retry_loop n run give_up errors w
        ≡ settle_with give_up (prefix_errors errors (attempts n run w))
  unfolding retry_loop
  retry_loop-attempts zero run give_up errors w = rw append-nil
  retry_loop-attempts (suc n) run give_up errors w = elim (Result-cases (run w).0) [
    | inl (v, e) ↦ rw (e, retry_loop) refl
    | inr (x, e) ↦
        rw (e, retry_loop)
          (retry_loop-attempts n run give_up (errors ++ display x ∷ []) (run w).1
            ∙ ap (settle_with give_up)
                (prefix-after_error errors (display x) (attempts n run (run w).1)))
  ]

  -- With retries, a step body is attempted up to `max_retries + 1` times: the first success is the
  -- result, and otherwise the errors of all attempts are joined in one error. The world is the one
  -- that these attempts, and no more, leave.
  pub execute_step_with_retry-attempts :
      (max_retries : ℕ) (name id : String) (run : Exec W R) (w : W)
      → max_retries ≢ 0
      → execute_step_with_retry max_retries name id run w
        ≡ settle_with (give_up_of max_retries name id) (attempts (max_retries + 1) run w)
  unfolding execute_step_with_retry
  execute_step_with_retry-attempts zero name id run w ne = absurd (ne refl)
  execute_step_with_retry-attempts (suc m) name id run w ne =
      rw add-one (elim (Result-cases (run w).0) [
        | inl (v, e) ↦ rw (e, execute_step_with_retry) refl
        | inr (x, e) ↦
            rw (e, execute_step_with_retry)
              (rw (not_zero m) (
                retry_loop-attempts (suc m) run (give_up_of (suc m) name id) (display x ∷ [])
                  (run w).1
                ∙ ap (settle_with (give_up_of (suc m) name id))
                    (one_error (display x) (attempts (suc m) run (run w).1))))
      ])

  -- Without retries the body runs once and its result is the step's.
  pub execute_step_with_retry-zero :
      (name id : String) (run : Exec W R) (w : W) → execute_step_with_retry 0 name id run w ≡ run w
  unfolding execute_step_with_retry
  execute_step_with_retry-zero name id run w = elim (Result-cases (run w).0) [
    | inl (v, e) ↦ rw (e, execute_step_with_retry) refl
    | inr (x, e) ↦ rw (e, execute_step_with_retry) refl
  ]
