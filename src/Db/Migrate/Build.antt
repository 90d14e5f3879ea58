-- ===== src/Db/Migrate/Build.antt =====
-- db/migrate.rs: the migrations in the order of their versions. The texts of the .sql files, which
-- the build embeds, are an argument.
use dbos_transact_rs.Prelude.{
  ℕ, String, Bool, true, false, List, [], ◌∷◌, ◌++◌, map, ltb, format, if◌then◌else◌,
}
use dbos_transact_rs.Prelude.Sort.{sort_by}
use dbos_transact_rs.Db.Migrate.Ident.{sanitize_ident}
use dbos_transact_rs.Db.Migrate.Render.{render_uniform, render_first_rest}

-- `SCHEMA_VERSION`
abbrev pub schema_version : ℕ
schema_version = 40

pub record Migration : Type 0 where
  pub version : ℕ
  pub sql : String
  pub online : Bool

-- `SIMPLE`: the version, the file and whether the migration is online.
abbrev pub simple : List (ℕ × String × Bool)
simple =
    (2, "2_add_queue_partition_key.sql", false)
    ∷ (3, "3_add_workflow_status_index.sql", false)
    ∷ (4, "4_add_forked_from.sql", false)
    ∷ (5, "5_add_step_timestamps.sql", false)
    ∷ (6, "6_add_workflow_events_history.sql", false)
    ∷ (7, "7_add_owner_xid.sql", false)
    ∷ (8, "8_add_parent_workflow_id.sql", false)
    ∷ (9, "9_add_workflow_schedules.sql", false)
    ∷ (11, "11_add_serialization_columns.sql", false)
    ∷ (12, "12_add_notifications_consumed.sql", false)
    ∷ (13, "13_add_application_versions.sql", false)
    ∷ (14, "14_add_pgsql_client_functions.sql", false)
    ∷ (15, "15_add_workflow_schedule_columns.sql", false)
    ∷ (16, "16_add_delay_until.sql", false)
    ∷ (17, "17_add_workflow_schedule_queue_name.sql", false)
    ∷ (18, "18_add_was_forked_from.sql", false)
    ∷ (19, "19_add_operation_outputs_completed_at_index.sql", false)
    ∷ (20, "20_set_function_search_path.sql", false)
    ∷ (21, "21_create_queues_table.sql", false)
    ∷ (22, "22_drop_forked_from_index.sql", true)
    ∷ (23, "23_create_partial_forked_from_index.sql", true)
    ∷ (24, "24_drop_parent_workflow_id_index.sql", true)
    ∷ (25, "25_create_partial_parent_workflow_id_index.sql", true)
    ∷ (26, "26_drop_executor_id_index.sql", true)
    ∷ (27, "27_create_partial_dedup_id_index.sql", true)
    ∷ (28, "28_drop_dedup_id_constraint.sql", false)
    ∷ (29, "29_create_pending_index.sql", true)
    ∷ (30, "30_create_failed_index.sql", true)
    ∷ (31, "31_drop_status_index.sql", true)
    ∷ (32, "32_create_in_flight_index.sql", true)
    ∷ (33, "33_add_rate_limited.sql", false)
    ∷ (34, "34_create_rate_limited_index.sql", true)
    ∷ (35, "35_drop_queue_status_started_index.sql", true)
    ∷ (36, "36_add_completed_at.sql", false)
    ∷ (37, "37_create_started_at_index.sql", true)
    ∷ (39, "39_create_streams_trigger.sql", false)
    ∷ (40, "40_add_attributes.sql", false)
    ∷ []

module _ (text_of : String → String) (schema : String) where
  unfoldable pub simple_migration : ℕ × String × Bool → Migration
  simple_migration (version, file, online) = record {
    version = version;
    sql =
        if online
        then render_first_rest (text_of file) "CONCURRENTLY" (sanitize_ident schema)
        else render_uniform (text_of file) (sanitize_ident schema);
    online = online;
  }

  -- The schema and, in one unit with it, the triggers of LISTEN and NOTIFY.
  unfoldable pub initial : Migration
  initial = record {
    version = 1;
    sql =
        render_uniform
          (format (
            text_of "1_initial_dbos_schema.sql"
            ∷ "\n"
            ∷ text_of "1_initial_dbos_schema_listen_notify.sql"
            ∷ []))
          (sanitize_ident schema);
    online = false;
  }

  -- The comparison with the catalog takes the raw name, the rest the quoted one.
  unfoldable pub notifications_pkey : Migration
  notifications_pkey = record {
    version = 10;
    sql =
        render_first_rest (text_of "10_add_notifications_pkey.sql") schema (sanitize_ident schema);
    online = false;
  }

  unfoldable pub enqueue_workflow : Migration
  enqueue_workflow = record {
    version = 38;
    sql =
        render_uniform
          (format (
            text_of "38_update_enqueue_workflow.sql"
            ∷ "\n"
            ∷ text_of "38_set_enqueue_workflow_search_path.sql"
            ∷ []))
          (sanitize_ident schema);
    online = false;
  }

  abbrev pub earlier : Migration → Migration → Bool
  earlier a b = ltb a.version b.version

  unfoldable pub build_migrations : List Migration
  unfolding simple_migration initial notifications_pkey enqueue_workflow
  build_migrations =
      sort_by earlier
        (initial ∷ map simple_migration simple ++ notifications_pkey ∷ enqueue_workflow ∷ [])
