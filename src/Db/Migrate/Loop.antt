-- ===== src/Db/Migrate/Loop.antt =====
-- The loop over the migrations: from any version it goes on, by the steps of one migration after the
-- other.
use dbos_transact_rs.Prelude.{
  ℕ, zero, suc, ◌+◌, ◌≤◌, max, String, ◌≡◌, refl, subst, arith, inl, inr, Bool, true, false,
  Bool-cases, List, [], ◌∷◌, map, leb, leb→le,
}
use dbos_transact_rs.Exec.{Result, ok, err, Exec, proceed}
use dbos_transact_rs.Db.Migrate.Build.{Migration}
use dbos_transact_rs.Db.Migrate.Versions.{count_from}
use dbos_transact_rs.Db.Migrate.Run.{Server, Postgres, apply_online, apply_catalog, apply_pending}
use dbos_transact_rs.Db.Migrate.Progress.{
  IsAt, Members, PathOf, stay, joined, Reaches, apply_online-Reaches, apply_catalog-Reaches,
}

module _ {W : Type 0} (P : Postgres W) (ms : List Migration) (sanitized : String) where
  -- A run goes on where the one before it ended without an error.
  continued :
      (cur last v : ℕ) (s : Server W) (r : Result (Unit {0}) × Server W)
      (f : Exec (Server W) (Unit {0}))
      → Reaches P ms sanitized cur s.world v r
      → ((t : Server W) → IsAt v t → Reaches P ms sanitized v t.world last (f t))
      → Reaches P ms sanitized cur s.world last (proceed r (λ _. f))
  continued cur last v s (err e, t) f h rest = record {
    version = h.version;
    is_at = h.is_at;
    steps = h.steps;
    complete = λ p. absurd (ground (arith, p));
    succeeds = h.succeeds;
  }
  continued cur last v s (ok u, t) f h rest =
      let here = h.complete refl in
      let after = rest t (subst (λ k. IsAt k t) here h.is_at) in
      record {
        version = after.version;
        is_at = after.is_at;
        steps =
            joined P ms sanitized
              (subst (λ k. PathOf P ms sanitized cur s.world k t.world) here h.steps) after.steps;
        complete = after.complete;
        succeeds = after.succeeds;
      }

  first_of : (x y : ℕ) (xs ys : List ℕ) → x ∷ xs ≡ y ∷ ys → x ≡ y
  first_of x y xs ys p = cc p

  rest_of : (x y : ℕ) (xs ys : List ℕ) → x ∷ xs ≡ y ∷ ys → xs ≡ ys
  rest_of x y xs ys p = cc p

  passed : (v a n cur : ℕ) → v ≡ a + 1 → a + suc n ≤ cur → leb v cur ≡ true
  passed v a n cur here le = ground (arith, here, le)

  sum : (a n : ℕ) → a + suc n ≡ (a + 1) + n
  sum a n = omega arith

  follows : (v a cur : ℕ) → v ≡ a + 1 → a ≤ cur → leb v cur ≡ false → v ≡ cur + 1
  follows v a cur here le e = ground (arith, here, le, e)

  same_end : (v a cur n : ℕ) → v ≡ a + 1 → v ≡ cur + 1 → max v ((a + 1) + n) ≡ max cur (a + suc n)
  same_end v a cur n here next = omega (arith, here, next)

  pub apply_pending-Reaches :
      (todo : List Migration) (a n cur : ℕ) (cleaned : Bool) (s : Server W)
      → Members ms todo
      → map (λ m. m.version) todo ≡ count_from a n
      → a ≤ cur
      → IsAt cur s
      → Reaches P ms sanitized cur s.world
          (max cur (a + n))
          (apply_pending P sanitized todo cleaned cur s)
  unfolding apply_pending
  apply_pending-Reaches [] a zero cur cleaned s known v le h = record {
    version = cur;
    is_at = h;
    steps = stay;
    complete = λ _. omega (arith, le);
    succeeds = λ _. refl;
  }
  apply_pending-Reaches [] a (suc n) cur cleaned s known v le h = absurd (ground (arith, v))
  apply_pending-Reaches (m ∷ rest) a zero cur cleaned s known v le h = absurd (ground (arith, v))
  apply_pending-Reaches (m ∷ rest) a (suc n) cur cleaned s known v le h =
      let here = first_of m.version (a + 1) (map (λ m. m.version) rest) (count_from (a + 1) n) v in
      let later = rest_of m.version (a + 1) (map (λ m. m.version) rest) (count_from (a + 1) n) v in
      elim (Bool-cases (leb m.version cur)) [
        | inl e ↦ rw e (
            rw (sum a n) (
              apply_pending-Reaches rest (a + 1) n cur cleaned s known.1 later
                (omega (arith, here, leb→le m.version cur e)) h))
        | inr e ↦
            let next = follows m.version a cur here le e in
            let on = λ (cleaned : Bool) (t : Server W) (ht : IsAt m.version t).
              subst
                (λ k.
                  Reaches P ms sanitized m.version t.world k
                    (apply_pending P sanitized rest cleaned m.version t))
                (same_end m.version a cur n here next)
                (apply_pending-Reaches rest (a + 1) n m.version cleaned t known.1 later
                  (omega (arith, here)) ht) in
            rw e (elim (Bool-cases m.online) [
              | inl o ↦ rw o (
                  continued cur (max cur (a + suc n)) m.version s
                    (apply_online P sanitized cleaned cur m s)
                    (apply_pending P sanitized rest true m.version)
                    (apply_online-Reaches P ms sanitized m cur known.0 next o cleaned s h)
                    (on true))
              | inr o ↦ rw o (
                  continued cur (max cur (a + suc n)) m.version s (apply_catalog P cur m s)
                    (apply_pending P sanitized rest cleaned m.version)
                    (apply_catalog-Reaches P ms sanitized m cur known.0 next o s h) (on cleaned))
            ])
      ]

  -- A version at or above every migration's leaves nothing to do.
  pub apply_pending_up_to_date :
      (todo : List Migration) (a n cur : ℕ) (cleaned : Bool) (s : Server W)
      → map (λ m. m.version) todo ≡ count_from a n
      → a + n ≤ cur
      → apply_pending P sanitized todo cleaned cur s ≡ (ok tt, s)
  unfolding apply_pending
  apply_pending_up_to_date [] a n cur cleaned s v le = refl
  apply_pending_up_to_date (m ∷ rest) a zero cur cleaned s v le = absurd (ground (arith, v))
  apply_pending_up_to_date (m ∷ rest) a (suc n) cur cleaned s v le =
      let here = first_of m.version (a + 1) (map (λ m. m.version) rest) (count_from (a + 1) n) v in
      let later = rest_of m.version (a + 1) (map (λ m. m.version) rest) (count_from (a + 1) n) v in
      rw (passed m.version a n cur here le)
        (apply_pending_up_to_date rest (a + 1) n cur cleaned s later (omega (arith, le)))
