-- ===== src/Tests/Migrate.antt =====
-- The migrations of db/migrate.rs, on servers whose world is the list of the SQL texts executed.
use Prim.Native.String
use Prim.Native.String.{String}
use dbos_transact_rs.Prelude.{max, ◌≡◌, refl, inl, true, some, List, [], ◌∷◌}
use dbos_transact_rs.Prelude.Sort.{sort_by}
use dbos_transact_rs.Exec.{Result, ok}
use dbos_transact_rs.Db.Migrate.Ident.{sanitize_ident, read_ident}
use dbos_transact_rs.Db.Migrate.Quoting.{read_ident-sanitize_ident}
use dbos_transact_rs.Db.Migrate.Render.{Piece, plain, percent, place, render, render_uniform}
use dbos_transact_rs.Db.Migrate.Build.{schema_version, build_migrations}
use dbos_transact_rs.Db.Migrate.Run.{
  read_version_opt, prepare, apply_pending, raw_sql, write_version, is_blank, Server, Postgres,
  run_migrations, should_migrate,
}
use dbos_transact_rs.Db.Migrate.Progress.{Reaches}
use dbos_transact_rs.Db.Migrate.Laws.{run_migrations-Reaches, run_migrations_idle}

execute : String → List String → Result (Unit {0}) × List String
execute sql log = (ok tt, sql ∷ log)

abbrev postgres : Postgres (List String)
postgres = record { execute = execute; invalid_indexes = λ log. [] }

abbrev at_37 : Server (List String)
at_37 = record { has_schema = true; tracking = some (37 ∷ []); world = [] }

abbrev at_40 : Server (List String)
at_40 = record { has_schema = true; tracking = some (40 ∷ []); world = [] }

abbrev file : String → String
file name = name

read_ident-sanitize_ident_example :
    read_ident (String.◌++◌ (sanitize_ident "my \"schema\"") ".dbos_migrations")
    ≡ some ("my \"schema\"", ".dbos_migrations")
read_ident-sanitize_ident_example =
    read_ident-sanitize_ident "my \"schema\"" ".dbos_migrations" refl

-- `a%%s %s` with the schema `x`
abbrev pieces : List Piece
pieces = plain "a" ∷ percent ∷ plain "s" ∷ place ∷ place ∷ []

-- The three last migrations are executed, the latest text first.
executes_pending : (run_migrations postgres file "dbos" at_37) ≡ (
  ok tt,
  record {
    has_schema = true;
    tracking = some (40 ∷ []);
    world =
        "40_add_attributes.sql" ∷ "39_create_streams_trigger.sql"
        ∷ "38_update_enqueue_workflow.sql\n38_set_enqueue_workflow_search_path.sql" ∷ [];
  },
)
unfolding run_migrations build_migrations execute render_uniform render sort_by prepare
    apply_pending raw_sql write_version is_blank
executes_pending = refl

run_migrations-Reaches_example :
    Reaches postgres
      (build_migrations file "dbos")
      (sanitize_ident "dbos")
      37
      []
      (max 37 schema_version)
      (run_migrations postgres file "dbos" at_37)
run_migrations-Reaches_example = run_migrations-Reaches postgres file "dbos" 37 at_37 (inl refl)

run_migrations_idle_example : run_migrations postgres file "dbos" at_40 ≡ (ok tt, at_40)
unfolding should_migrate read_version_opt
run_migrations_idle_example = run_migrations_idle postgres file "dbos" at_40 refl
