-- ===== src/Db/Migrate/Run.antt =====
-- db/migrate.rs: running the migrations. The rest of the server is an abstract world, on which SQL
-- texts act; the tracking table `dbos_migrations` is the list of its versions.
use Prim.Native.String.{String}
use dbos_transact_rs.Prelude.{
  ℕ, Bool, true, false, not, ◌&&◌, ◌||◌, Option, none, some, List, [], ◌∷◌, ◌++◌, ltb, leb, eqb,
  format, get_or, is_some, if◌then◌else◌,
}
use dbos_transact_rs.Prelude.Chars.{is_white}
use dbos_transact_rs.Error.DbosError.{from_sqlx}
use dbos_transact_rs.Error.Sqlx.{database, unique_violation}
use dbos_transact_rs.Exec.{Result, Exec, pure, raise, query, write, transaction, ◌>>=◌, ◌>>◌}
use dbos_transact_rs.Db.Migrate.Ident.{sanitize_ident}
use dbos_transact_rs.Db.Migrate.Build.{Migration, build_migrations, schema_version}

pub record Server (W : Type 0) : Type 0 where
  pub has_schema : Bool
  -- The rows of the tracking table, if it exists.
  pub tracking : Option (List ℕ)
  pub world : W

-- `sql.trim().is_empty()`
unfoldable pub is_blank : String → Bool
unfolding is_white
is_blank String.[] = true
is_blank (String.◌∷◌ c s) = is_white c && is_blank s

unfoldable pub first_row : List ℕ → Option ℕ
first_row [] = none
first_row (v ∷ vs) = some v

unfoldable pub has_version : ℕ → List ℕ → Bool
has_version v [] = false
has_version v (r ∷ rs) = eqb r v || has_version v rs

module _ {W : Type 0} where
  abbrev pub undefined_table : Server W → Result (Unit {0}) × Server W
  undefined_table = raise (from_sqlx (database (some "42P01") "relation does not exist"))

  -- SELECT version FROM dbos_migrations LIMIT 1
  unfoldable pub read_rows : Option (List ℕ) → Exec (Server W) (Option ℕ)
  unfolding first_row
  read_rows none = raise (from_sqlx (database (some "42P01") "relation does not exist"))
  read_rows (some rows) = pure (first_row rows)

  unfoldable pub read_version_opt : Exec (Server W) (Option ℕ)
  unfolding read_rows
  read_version_opt s = read_rows s.tracking s

  unfoldable pub read_version : Exec (Server W) ℕ
  read_version = read_version_opt >>= λ v. pure (get_or v 0)

  unfoldable pub should_migrate : Exec (Server W) Bool
  unfolding read_version
  should_migrate = query (λ s. s.has_schema) >>= λ schema.
      if not schema
      then pure true
      else query (λ s. is_some s.tracking) >>= λ table.
          if not table then pure true else read_version >>= λ v. pure (ltb v schema_version)

  -- INSERT, with the table's primary key.
  unfoldable pub insert_version : ℕ → List ℕ → Exec (Server W) (Unit {0})
  insert_version v rows =
      if has_version v rows
      then raise (from_sqlx unique_violation)
      else write (λ s. record s { tracking = some (rows ++ v ∷ []) })

  -- UPDATE of every row: two rows would have the same key.
  unfoldable pub update_version : ℕ → List ℕ → Exec (Server W) (Unit {0})
  update_version v [] = pure tt
  update_version v (r ∷ []) = write (λ s. record s { tracking = some (v ∷ []) })
  update_version v (r ∷ _) = raise (from_sqlx unique_violation)

  unfoldable pub write_rows : Option (List ℕ) → ℕ → ℕ → Exec (Server W) (Unit {0})
  write_rows none v last = undefined_table
  write_rows (some rows) v last =
      if eqb last 0 then insert_version v rows else update_version v rows

  unfoldable pub write_version : ℕ → ℕ → Exec (Server W) (Unit {0})
  unfolding write_rows insert_version update_version has_version
  write_version v last s = write_rows s.tracking v last s

  -- Phase A: the schema and the tracking table, in one transaction, and the current version.
  unfoldable pub prepare : Exec (Server W) ℕ
  unfolding read_version_opt
  prepare =
      transaction (
        (query (λ s. s.has_schema) >>= λ exists.
        if exists then pure tt else write (λ s. record s { has_schema = true }))
        >> (query (λ s. is_some s.tracking) >>= λ exists.
            if exists then pure tt else write (λ s. record s { tracking = some [] }))
        >> read_version_opt)
      >>= λ v. pure (get_or v 0)

-- What executes SQL: the world's state after it, whether it succeeds or not, and the names of the
-- indexes that a failed CONCURRENTLY build has left invalid.
pub record Postgres (W : Type 0) : Type 0 where
  pub execute : String → Exec W (Unit {0})
  pub invalid_indexes : W → List String

unfoldable pub drop_statement : String → String → String
drop_statement sanitized name =
    format ("DROP INDEX CONCURRENTLY IF EXISTS " ∷ sanitized ∷ "." ∷ sanitize_ident name ∷ [])

module _ {W : Type 0} (P : Postgres W) where
  abbrev pub in_world : Server W → Result (Unit {0}) × W → Result (Unit {0}) × Server W
  in_world s (r, w) = (r, record s { world = w })

  unfoldable pub raw_sql : String → Exec (Server W) (Unit {0})
  raw_sql sql s = in_world s (P.execute sql s.world)

  unfoldable pub drop_each : String → List String → Exec (Server W) (Unit {0})
  unfolding drop_statement raw_sql
  drop_each sanitized [] = pure tt
  drop_each sanitized (name ∷ names) =
      raw_sql (drop_statement sanitized name) >> drop_each sanitized names

  unfoldable pub cleanup_invalid_indexes : String → Exec (Server W) (Unit {0})
  unfolding drop_each
  cleanup_invalid_indexes sanitized =
      query (λ s. P.invalid_indexes s.world) >>= λ names. drop_each sanitized names

  -- An online migration: outside a transaction, with the version written afterwards.
  unfoldable pub apply_online : String → Bool → ℕ → Migration → Exec (Server W) (Unit {0})
  unfolding cleanup_invalid_indexes raw_sql write_version
  apply_online sanitized cleaned current m =
      (if cleaned then pure tt else cleanup_invalid_indexes sanitized)
      >> raw_sql m.sql
      >> write_version m.version current

  -- A catalog migration: its SQL and the version in one transaction.
  unfoldable pub apply_catalog : ℕ → Migration → Exec (Server W) (Unit {0})
  unfolding raw_sql is_blank write_version
  apply_catalog current m =
      transaction
        ((if is_blank m.sql then pure tt else raw_sql m.sql) >> write_version m.version current)

  -- Phase B: the loop over the migrations.
  unfoldable pub apply_pending : String → List Migration → Bool → ℕ → Exec (Server W) (Unit {0})
  unfolding apply_online apply_catalog
  apply_pending sanitized [] cleaned current = pure tt
  apply_pending sanitized (m ∷ ms) cleaned current =
      if leb m.version current
      then apply_pending sanitized ms cleaned current
      else if m.online
      then (apply_online sanitized cleaned current m >> apply_pending sanitized ms true m.version)
      else (apply_catalog current m >> apply_pending sanitized ms cleaned m.version)

  unfoldable pub run_migrations : (String → String) → String → Exec (Server W) (Unit {0})
  unfolding prepare apply_pending
  run_migrations text_of schema = prepare >>= λ current.
      apply_pending (sanitize_ident schema) (build_migrations text_of schema) false current
