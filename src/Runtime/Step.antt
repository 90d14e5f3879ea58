-- ===== src/Runtime/Step.antt =====
-- runtime/step.rs: a step body with retries. The waits between the attempts are left out.
pub mod Attempts
use dbos_transact_rs.Prelude.{
  ℕ, zero, suc, ◌+◌, ◌≤◌, String, ◌≡◌, ◌≢◌, refl, ◌∙◌, ◌⊎◌, inl, inr, List, [], ◌∷◌, ◌++◌, arith,
  format, eqb, if◌then◌else◌,
}
use dbos_transact_rs.Prelude.Int.{pos}
use dbos_transact_rs.Error.DbosError.{DbosError, display, max_step_retries_exceeded}
use dbos_transact_rs.Exec.{Result, ok, err, Exec}

-- errors.join("\n")
unfoldable pub join_lines : List String → String
join_lines [] = ""
join_lines (s ∷ []) = s
join_lines (s ∷ t ∷ ss) = format (s ∷ "\n" ∷ join_lines (t ∷ ss) ∷ [])

module _ {W R : Type 0} where
  -- The loop over the retries that are left, with the errors so far.
  unfoldable pub retry_loop : ℕ → Exec W R → (List String → DbosError) → List String → Exec W R
  retry_loop zero run give_up errors w = (err (give_up errors), w)
  retry_loop (suc left) run give_up errors w = elim (run w).0 [
    | ok v ↦ (ok v, (run w).1)
    | err e ↦ retry_loop left run give_up (errors ++ (display e ∷ [])) (run w).1
  ]

  unfoldable pub execute_step_with_retry : ℕ → String → String → Exec W R → Exec W R
  execute_step_with_retry max_retries step_name workflow_id run w = elim (run w).0 [
    | ok v ↦ (ok v, (run w).1)
    | err e ↦
        if eqb max_retries 0
        then (err e, (run w).1)
        else retry_loop max_retries run
            (λ errors.
              max_step_retries_exceeded workflow_id step_name (pos max_retries) (join_lines errors))
            (display e ∷ []) (run w).1
  ]
