-- ===== src/Error/Laws.antt =====
-- The codes of errors: which tests match which errors.
use dbos_transact_rs.Prelude.{
  ◌≡◌, ◌≢◌, ◌↔◌, refl, ap, true, false, not, ◌&&◌, arith, Bool-cases, inl, inr,
}
use dbos_transact_rs.Error.Code.{DbosErrorCode, as_i32, same_code}
use dbos_transact_rs.Error.DbosError.{DbosError, is, is_code}

same_code-eq : (a b : DbosErrorCode) → same_code a b ≡ true → a ≡ b
unfolding same_code as_i32
same_code-eq a b h = ground arith

same_code_refl : (a : DbosErrorCode) → same_code a a ≡ true
unfolding same_code
same_code_refl a = ground arith

-- `is` matches exactly the errors that have the code, and none for the code Unspecified; asking for
-- the number of the code gives the same answer.
pub is_iff :
    (e : DbosError) (c : DbosErrorCode)
    → ((is e c ≡ true) ↔ ((e.code ≡ c) × (c ≢ DbosErrorCode.unspecified)))
      × (is_code e (as_i32 c) ≡ is e c)
unfolding is is_code
is_iff e c = (
  (
    λ h. (
      same_code-eq e.code c (ground (arith, h)),
      λ u. unspecified_differs h (ap (λ x. same_code x DbosErrorCode.unspecified) u),
    ),
    λ (p, ne). ground (arith, matches p, differs ne),
  ),
  unfold same_code as_i32 in refl,
)
  where
    unspecified_differs :
        (not (same_code c DbosErrorCode.unspecified) && same_code e.code c) ≡ true
        → same_code c DbosErrorCode.unspecified
          ≡ same_code DbosErrorCode.unspecified DbosErrorCode.unspecified
        → ⊥
    unspecified_differs h u = ground (arith, h, u, same_code_refl DbosErrorCode.unspecified)

    matches : e.code ≡ c → same_code e.code c ≡ true
    matches p = rw p (same_code_refl c)

    differs : c ≢ DbosErrorCode.unspecified → same_code c DbosErrorCode.unspecified ≡ false
    differs ne = elim (Bool-cases (same_code c DbosErrorCode.unspecified)) [
      | inl e ↦ absurd (ne (same_code-eq c DbosErrorCode.unspecified e))
      | inr e ↦ e
    ]
