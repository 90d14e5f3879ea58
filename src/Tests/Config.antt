-- ===== src/Tests/Config.antt =====
-- A configuration with an environment.
use dbos_transact_rs.Prelude.{
  String, ◌≡◌, refl, arith, true, false, Option, none, some, ◌==◌, eq_iff, if◌then◌else◌,
}
use dbos_transact_rs.Exec.{ok}
use dbos_transact_rs.Config.{
  Config, ProcessedConfig, postgres, detect_dialect, dialect_of, resolved, with_dialect,
  starts_with_any, extract_scheme, version_of, executor_of, env_get, process_config_with_env,
}
use dbos_transact_rs.Prelude.Chars.{
  to_ascii_lowercase, trim_start, is_white, lower, is_letter, is_letter_or_digit,
}
use dbos_transact_rs.Config.Resolved.{IsResolved, process_config_with_env-IsResolved}

abbrev shop : Config
shop = record {
  app_name = "shop";
  database_url = some "Postgres://u@db/x";
  system_db_pool = false;
  database_schema = some "";
  admin_server = true;
  admin_server_port = some 0;
  application_version = some "v1";
  executor_id = none;
  enable_patching = true;
  scheduler_polling_interval = none;
}

abbrev vars : String → Option String
vars key =
    if key == "DBOS__APPVERSION" then some "v2" else if key == "DBOS__VMID" then some "" else none

abbrev accepted : ProcessedConfig
accepted = record {
  app_name = "shop";
  database_url = some "Postgres://u@db/x";
  system_db_pool = false;
  database_schema = "dbos";
  admin_server = true;
  admin_server_port = 3001;
  application_version = "v2";
  executor_id = "local";
  application_id = "";
  enable_patching = true;
  scheduler_polling_interval = 30_000;
  dialect = postgres;
}

shop-accepted : process_config_with_env shop vars "abc" ≡ ok accepted
unfolding process_config_with_env with_dialect dialect_of detect_dialect starts_with_any
    extract_scheme resolved version_of executor_of env_get to_ascii_lowercase trim_start is_white
    lower is_letter is_letter_or_digit
shop-accepted = refl

process_config_with_env-IsResolved_example : IsResolved shop accepted
process_config_with_env-IsResolved_example =
    process_config_with_env-IsResolved shop vars "abc" accepted (ground (arith, eq_iff "abc" ""))
      shop-accepted
