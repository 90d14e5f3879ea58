-- ===== src/Db/Migrate/Laws.antt =====
-- What a run of the migrations guarantees.
use dbos_transact_rs.Prelude.{
  ℕ, zero, suc, ◌≤◌, max, String, ◌≡◌, refl, sym, ◌∙◌, ap, arith, ◌⊎◌, inl, inr, Bool, true, false,
  Option, none, some, List, [], ◌∷◌,
}
use dbos_transact_rs.Exec.{ok}
use dbos_transact_rs.Db.Migrate.Ident.{sanitize_ident}
use dbos_transact_rs.Db.Migrate.Build.{Migration, build_migrations, schema_version}
use dbos_transact_rs.Db.Migrate.Versions.{build_migrations-versions}
use dbos_transact_rs.Db.Migrate.Run.{
  Server, Postgres, read_version, read_version_opt, read_rows, first_row, prepare, run_migrations,
  should_migrate,
}
use dbos_transact_rs.Db.Migrate.Progress.{row_of, IsAt, Members, Reaches}
use dbos_transact_rs.Db.Migrate.Loop.{apply_pending-Reaches, apply_pending_up_to_date}

Members-behind :
    (m : Migration) (known todo : List Migration) → Members known todo → Members (m ∷ known) todo
Members-behind m known [] h = tt
Members-behind m known (x ∷ xs) h = (inr h.0, Members-behind m known xs h.1)

Members-self : (ms : List Migration) → Members ms ms
Members-self [] = tt
Members-self (m ∷ ms) = (inl refl, Members-behind m ms ms (Members-self ms))

module _ {W : Type 0} where
  -- The version before a run: a missing table is version 0.
  abbrev pub IsRecorded : ℕ → Server W → Type 0
  IsRecorded v s = IsAt v s ⊎ ((s.tracking ≡ none) × (v ≡ 0))

  abbrev server : Bool → Option (List ℕ) → W → Server W
  server b o w = record { has_schema = b; tracking = o; world = w }

  prepare_at :
      (v : ℕ) (b : Bool) (w : W)
      → prepare (server b (some (row_of v)) w) ≡ (ok v, server true (some (row_of v)) w)
  unfolding prepare read_version_opt read_rows first_row
  prepare_at zero true w = refl
  prepare_at zero false w = refl
  prepare_at (suc v) true w = refl
  prepare_at (suc v) false w = refl

  prepare_new : (b : Bool) (w : W) → prepare (server b none w) ≡ (ok 0, server true (some []) w)
  unfolding prepare read_version_opt read_rows first_row
  prepare_new true w = refl
  prepare_new false w = refl

  prepare_lem :
      (v : ℕ) (s : Server W)
      → IsRecorded v s
      → prepare s ≡ (ok v, server true (some (row_of v)) s.world)
  prepare_lem v s (inl h) =
      ap (λ o. prepare (server s.has_schema o s.world)) h ∙ prepare_at v s.has_schema s.world
  prepare_lem v s (inr (h, z)) =
      ap (λ o. prepare (server s.has_schema o s.world)) h
      ∙ prepare_new s.has_schema s.world
      ∙ ap (λ k. (ok k, server true (some (row_of k)) s.world)) (sym z)

  not_recorded : (b : Bool) (w : W) → ((should_migrate (server b none w)).0 ≡ ok false) → ⊥
  unfolding should_migrate
  not_recorded true w h = absurd (ground (arith, h))
  not_recorded false w h = absurd (ground (arith, h))

  no_row : (b : Bool) (w : W) → ((should_migrate (server b (some []) w)).0 ≡ ok false) → ⊥
  unfolding should_migrate read_version read_version_opt read_rows first_row
  no_row true w h = absurd (ground (arith, h))
  no_row false w h = absurd (ground (arith, h))

  current_row :
      (b : Bool) (r : ℕ) (rs : List ℕ) (w : W)
      → (should_migrate (server b (some (r ∷ rs)) w)).0 ≡ ok false
      → (b ≡ true) × (schema_version ≤ r)
  unfolding should_migrate read_version read_version_opt read_rows first_row
  current_row true r rs w h = (refl, ground (arith, h))
  current_row false r rs w h = absurd (ground (arith, h))

module _ {W : Type 0} (P : Postgres W) (text_of : String → String) (schema : String) where
  abbrev files : List Migration
  files = build_migrations text_of schema

  -- However a run ends, the recorded version has been reached from the one before by steps of the
  -- migrations in their order: a catalog migration executes with its version, an online one may be
  -- repeated until its version is recorded. Without an error the last version is recorded, and there
  -- is no error where every SQL text executes without one.
  pub run_migrations-Reaches :
      (v : ℕ) (s : Server W)
      → IsRecorded v s
      → Reaches P files
          (sanitize_ident schema)
          v
          s.world
          (max v schema_version)
          (run_migrations P text_of schema s)
  unfolding run_migrations
  run_migrations-Reaches v s h = rw (prepare_lem v s h) (
      apply_pending-Reaches P files (sanitize_ident schema) files 0 40 v false
        (server true (some (row_of v)) s.world) (Members-self files)
        (build_migrations-versions text_of schema) (omega arith) refl)

  idle :
      (r : ℕ) (rs : List ℕ) (w : W)
      → schema_version ≤ r
      → run_migrations P text_of schema (server true (some (r ∷ rs)) w)
        ≡ (ok tt, server true (some (r ∷ rs)) w)
  unfolding run_migrations prepare read_version_opt read_rows first_row
  idle r rs w le =
      apply_pending_up_to_date P files (sanitize_ident schema) files 0 40 r false
        (server true (some (r ∷ rs)) w) (build_migrations-versions text_of schema)
        (omega (arith, le))

  -- Where `should_migrate` says no, a run executes nothing and changes nothing.
  pub run_migrations_idle :
      (s : Server W)
      → (should_migrate s).0 ≡ ok false
      → run_migrations P text_of schema s ≡ (ok tt, s)
  run_migrations_idle s h = go s.has_schema s.tracking h
    where
      go :
          (b : Bool) (o : Option (List ℕ))
          → (should_migrate (server b o s.world)).0 ≡ ok false
          → run_migrations P text_of schema (server b o s.world) ≡ (ok tt, server b o s.world)
      go b none h = absurd (not_recorded b s.world h)
      go b (some []) h = absurd (no_row b s.world h)
      go b (some (r ∷ rs)) h =
          let facts = current_row b r rs s.world h in rw (facts.0) (idle r rs s.world facts.1)
