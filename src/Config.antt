-- ===== src/Config.antt =====
-- config.rs: the configuration, the dialect of a database URL, and how both are validated. The
-- process environment, the hash of the executable and the presence of a pool are arguments. What
-- the conductor is told is passed on as it is, and left out.
pub mod Resolved
use Prim.Native.Char.{Char, code}
use Prim.Native.String
use Prim.Native.String.{String}
use text.Mathlib.Text.{starts_with}
use dbos_transact_rs.Prelude.{
  ℕ, Bool, true, false, not, ◌&&◌, ◌||◌, Option, none, some, List, [], ◌∷◌, ◌==◌, ◌⊎◌, inl, inr,
  eqb, get_or, or_else, format, if◌then◌else◌,
}
use dbos_transact_rs.Prelude.Chars.{is_letter, is_letter_or_digit, to_ascii_lowercase, trim_start}
use dbos_transact_rs.Error.DbosError.{initialization}
use dbos_transact_rs.Exec.{Result, ok, err}

abbrev pub default_system_db_schema : String
default_system_db_schema = "dbos"

abbrev pub default_admin_server_port : ℕ
default_admin_server_port = 3001

abbrev pub default_executor_id : String
default_executor_id = "local"

-- Thirty seconds, in milliseconds.
abbrev pub default_scheduler_polling_interval : ℕ
default_scheduler_polling_interval = 30_000

abbrev pub patching_enabled_version : String
patching_enabled_version = "PATCHING_ENABLED"

pub data Dialect : Type 0 where
  postgres cockroach sqlite : Dialect

unfoldable pub dialect_text : Dialect → String
dialect_text postgres = "postgres"
dialect_text cockroach = "cockroach"
dialect_text sqlite = "sqlite"

abbrev pub pg_kv_prefixes : List String
pg_kv_prefixes =
    "user=" ∷ "host=" ∷ "hostaddr=" ∷ "port=" ∷ "dbname=" ∷ "database=" ∷ "password=" ∷ "sslmode="
    ∷ "application_name=" ∷ "options=" ∷ []

unfoldable pub starts_with_any : List String → String → Bool
starts_with_any [] s = false
starts_with_any (p ∷ ps) s = starts_with s p || starts_with_any ps s

-- The text before the first colon.
before_colon : String → Option String
before_colon String.[] = none
before_colon (String.◌∷◌ c s) =
    let rest = before_colon s in
    if eqb (code c) b':'
    then some ""
    else elim rest [ none ↦ none | some t ↦ some (String.◌∷◌ c t) ]

is_scheme_char : Char → Bool
is_scheme_char c =
    is_letter_or_digit c || eqb (code c) b'+' || eqb (code c) b'-' || eqb (code c) b'.'

all_scheme : String → Bool
unfolding is_scheme_char
all_scheme String.[] = true
all_scheme (String.◌∷◌ c s) = is_scheme_char c && all_scheme s

-- A letter first, then letters, digits, and `+`, `-` and `.`.
valid_scheme : String → Option String
unfolding all_scheme
valid_scheme String.[] = none
valid_scheme (String.◌∷◌ c s) =
    if not (is_letter c)
    then none
    else if all_scheme s
    then some (to_ascii_lowercase (String.◌∷◌ c s))
    else none

unfoldable pub extract_scheme : String → Option String
unfolding before_colon valid_scheme
extract_scheme s = elim (before_colon s) [ none ↦ none | some scheme ↦ valid_scheme scheme ]

abbrev scheme_dialect : String → Option String → String ⊎ Dialect
scheme_dialect raw_url none = inl (format ("database URL has no scheme: \"" ∷ raw_url ∷ "\"" ∷ []))
scheme_dialect raw_url (some scheme) =
    if scheme == "sqlite" || scheme == "sqlite3"
    then inr sqlite
    else if scheme == "postgres" || scheme == "postgresql"
    then inr postgres
    else inl
        (format ("unsupported database scheme \"" ∷ scheme ∷ "\" (want sqlite: or postgres:)" ∷ []))

-- The prefixes are in ASCII without a `k`, so that lowering the ASCII letters is enough, and white
-- space at the end does not matter.
unfoldable pub detect_dialect : String → String ⊎ Dialect
detect_dialect raw_url =
    if raw_url == ""
    then inl "database URL is empty"
    else if starts_with_any pg_kv_prefixes (to_ascii_lowercase (trim_start raw_url))
    then inr postgres
    else scheme_dialect raw_url (extract_scheme raw_url)

pub record Config : Type 0 where
  pub app_name : String
  pub database_url : Option String
  pub system_db_pool : Bool
  pub database_schema : Option String
  pub admin_server : Bool
  pub admin_server_port : Option ℕ
  pub application_version : Option String
  pub executor_id : Option String
  pub enable_patching : Bool
  pub scheduler_polling_interval : Option ℕ

pub record ProcessedConfig : Type 0 where
  pub app_name : String
  pub database_url : Option String
  pub system_db_pool : Bool
  pub database_schema : String
  pub admin_server : Bool
  pub admin_server_port : ℕ
  pub application_version : String
  pub executor_id : String
  pub application_id : String
  pub enable_patching : Bool
  pub scheduler_polling_interval : ℕ
  pub dialect : Dialect

-- `.filter(|v| !v.is_empty())`
abbrev pub nonempty : Option String → Option String
nonempty none = none
nonempty (some s) = if s == "" then none else some s

abbrev pub nonzero : Option ℕ → Option ℕ
nonzero none = none
nonzero (some n) = if eqb n 0 then none else some n

-- `EnvSource::get`: an empty variable is unset.
unfoldable pub env_get : (String → Option String) → String → Option String
env_get vars key = nonempty (vars key)

-- The environment, then the explicit version or the sentinel of patching, then the hash.
unfoldable pub version_of : Config → (String → Option String) → String → String
version_of cfg vars hash =
    let explicit =
      or_else (nonempty cfg.application_version)
        (if cfg.enable_patching then some patching_enabled_version else none) in
    get_or (nonempty (or_else (env_get vars "DBOS__APPVERSION") explicit)) hash

unfoldable pub executor_of : Config → (String → Option String) → String
executor_of cfg vars =
    get_or (nonempty (or_else (env_get vars "DBOS__VMID") (nonempty cfg.executor_id)))
      default_executor_id

unfoldable pub dialect_of : Config → String ⊎ Dialect
dialect_of cfg =
    if cfg.system_db_pool then inr postgres else detect_dialect (get_or cfg.database_url "")

unfoldable pub resolved : Config → (String → Option String) → String → Dialect → ProcessedConfig
resolved cfg vars hash dialect = record {
  app_name = cfg.app_name;
  database_url = cfg.database_url;
  system_db_pool = cfg.system_db_pool;
  database_schema = get_or (nonempty cfg.database_schema) default_system_db_schema;
  admin_server = cfg.admin_server;
  admin_server_port = get_or (nonzero cfg.admin_server_port) default_admin_server_port;
  application_version = version_of cfg vars hash;
  executor_id = executor_of cfg vars;
  application_id = get_or (env_get vars "DBOS__APPID") "";
  enable_patching = cfg.enable_patching;
  scheduler_polling_interval =
      get_or (nonzero cfg.scheduler_polling_interval) default_scheduler_polling_interval;
  dialect = dialect;
}

unfoldable pub with_dialect :
    Config → (String → Option String) → String → String ⊎ Dialect → Result ProcessedConfig
with_dialect cfg vars hash (inl e) = err (initialization e)
with_dialect cfg vars hash (inr d) = ok (resolved cfg vars hash d)

abbrev pub has_url : Option String → Bool
has_url none = false
has_url (some u) = not (u == "")

unfoldable pub process_config_with_env :
    Config → (String → Option String) → String → Result ProcessedConfig
process_config_with_env cfg vars hash =
    if not (has_url cfg.database_url) && not cfg.system_db_pool
    then err (initialization "one of databaseURL, systemDBPool, or sqliteSystemDB must be provided")
    else if cfg.app_name == ""
    then err (initialization "missing required config field: appName")
    else with_dialect cfg vars hash (dialect_of cfg)
