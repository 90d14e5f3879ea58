-- ===== src/Config/Resolved.antt =====
-- What a configuration that was accepted has.
use dbos_transact_rs.Prelude.{
  ℕ, String, ◌≡◌, ◌≢◌, refl, arith, true, inl, inr, ◌⊎◌, Option, none, some, subst, eq_iff, get_or,
  or_else, if◌then◌else◌,
}
use dbos_transact_rs.Exec.{ok}
use dbos_transact_rs.Config.{
  Config, ProcessedConfig, Dialect, nonempty, nonzero, env_get, version_of, executor_of, dialect_of,
  resolved, with_dialect, has_url, process_config_with_env, default_executor_id,
  patching_enabled_version, default_system_db_schema, default_admin_server_port,
  default_scheduler_polling_interval,
}

-- No text is empty and no number is zero, and the dialect is that of the URL.
pub record IsResolved (cfg : Config) (p : ProcessedConfig) : Type 0 where
  pub named : p.app_name ≢ ""
  pub schema : p.database_schema ≢ ""
  pub version : p.application_version ≢ ""
  pub executor : p.executor_id ≢ ""
  pub port : p.admin_server_port ≢ 0
  pub interval : p.scheduler_polling_interval ≢ 0
  pub has_dialect : dialect_of cfg ≡ inr p.dialect
  pub has_source : (has_url p.database_url ≡ true) ⊎ (p.system_db_pool ≡ true)

nonempty_or : (o : Option String) (d : String) → d ≢ "" → get_or (nonempty o) d ≢ ""
nonempty_or none d h = h
nonempty_or (some s) d h = ground (arith, eq_iff s "", h)

nonzero_or : (o : Option ℕ) (d : ℕ) → d ≢ 0 → get_or (nonzero o) d ≢ 0
nonzero_or none d h = h
nonzero_or (some n) d h = ground (arith, h)

schema_named : default_system_db_schema ≢ ""
schema_named = ground (arith, eq_iff default_system_db_schema "")

executor_named : default_executor_id ≢ ""
executor_named = ground (arith, eq_iff default_executor_id "")

version_of-filled :
    (cfg : Config) (vars : String → Option String) (hash : String)
    → hash ≢ ""
    → version_of cfg vars hash ≢ ""
unfolding version_of
version_of-filled cfg vars hash h =
    nonempty_or
      (or_else (env_get vars "DBOS__APPVERSION") (
        or_else (nonempty cfg.application_version)
          (if cfg.enable_patching then some patching_enabled_version else none)))
      hash h

executor_of-filled : (cfg : Config) (vars : String → Option String) → executor_of cfg vars ≢ ""
unfolding executor_of
executor_of-filled cfg vars =
    nonempty_or (or_else (env_get vars "DBOS__VMID") (nonempty cfg.executor_id)) default_executor_id
      executor_named

resolved-IsResolved :
    (cfg : Config) (vars : String → Option String) (hash : String) (d : Dialect)
    → hash ≢ ""
    → cfg.app_name ≢ ""
    → (has_url cfg.database_url ≡ true) ⊎ (cfg.system_db_pool ≡ true)
    → dialect_of cfg ≡ inr d
    → IsResolved cfg (resolved cfg vars hash d)
unfolding resolved
resolved-IsResolved cfg vars hash d h name source eq = record {
  named = name;
  schema = nonempty_or cfg.database_schema default_system_db_schema schema_named;
  version = version_of-filled cfg vars hash h;
  executor = executor_of-filled cfg vars;
  port = nonzero_or cfg.admin_server_port default_admin_server_port (omega arith);
  interval =
      nonzero_or cfg.scheduler_polling_interval default_scheduler_polling_interval (omega arith);
  has_dialect = eq;
  has_source = source;
}

with_dialect-IsResolved :
    (cfg : Config) (vars : String → Option String) (hash : String) (p : ProcessedConfig)
    → hash ≢ ""
    → cfg.app_name ≢ ""
    → (has_url cfg.database_url ≡ true) ⊎ (cfg.system_db_pool ≡ true)
    → (d : String ⊎ Dialect) → dialect_of cfg ≡ d
    → with_dialect cfg vars hash d ≡ ok p
    → IsResolved cfg p
unfolding with_dialect
with_dialect-IsResolved cfg vars hash p h name source (inl e) eq r = ground (arith, r)
with_dialect-IsResolved cfg vars hash p h name source (inr d) eq r =
    subst (IsResolved cfg) (cc) (resolved-IsResolved cfg vars hash d h name source eq)

-- A configuration that is accepted with a hash that is not empty has an application name, a schema,
-- a version and an executor id that are not empty texts, a port and a polling interval that are not
-- zero, a database URL that is not empty or a pool, and the dialect that its URL or its pool gives.
pub process_config_with_env-IsResolved :
    (cfg : Config) (vars : String → Option String) (hash : String) (p : ProcessedConfig)
    → hash ≢ ""
    → process_config_with_env cfg vars hash ≡ ok p
    → IsResolved cfg p
unfolding process_config_with_env
process_config_with_env-IsResolved cfg vars hash p h r =
    with_dialect-IsResolved cfg vars hash p h (ground (arith, eq_iff cfg.app_name "", r))
      (ground (arith, r)) (dialect_of cfg) refl (ground (arith, r))
