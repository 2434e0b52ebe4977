-- ===== src/Config/Load.antt =====
-- internal/config/config.go: the file .env, and the configuration with what the environment overrides.
-- Parsing YAML is a library's.
use omni_blob.Base.{
  ℕ, String, Bool, true, false, ◌||◌, not, Option, none, some, List, [], ◌∷◌, ◌==◌, if◌then◌else◌,
  Text, codes, is_empty, or_else, has_prefix, has_byte, trim_if, trim_space, split_on, cut,
  contains_text, Assoc, lookup, insert, ℤ, atoi,
}
use omni_blob.Http.{or_blank}
use omni_blob.Config.{Config, ServerConfig, DatabaseConfig}

-- The process's environment. A variable that is not set reads as the empty text.
abbrev pub Environment : Type 0
Environment = Assoc Text

unfoldable pub getenv : Environment → Text → Text
getenv env k = or_blank (lookup k env)

-- os.Setenv refuses a key that is empty or has '=' or a zero byte, and a value with a zero byte.
abbrev pub is_settable : Text → Text → Bool
is_settable k v = not (is_empty k || has_byte b'=' k || has_byte 0 k || has_byte 0 v)

unfoldable pub setenv : Text → Text → Environment → Environment
setenv k v env = if is_settable k v then insert k v env else env

abbrev is_quote : ℕ → Bool
is_quote c = (c == 34) || (c == 39)

abbrev trimmed_pair : Option (Text × Text) → Option (Text × Text)
trimmed_pair none = none
trimmed_pair (some (k, v)) = some (trim_space k, trim_if is_quote (trim_space v))

-- What a line gives: a key and a value, or nothing for a blank line, a comment, or one without '='.
unfoldable pub parse_line : Text → Option (Text × Text)
parse_line line =
    let l = trim_space line in
    if is_empty l || has_prefix l (codes "#") then none else trimmed_pair (cut b'=' l)

abbrev pub set_if_unset : Option (Text × Text) → Environment → Environment
set_if_unset none env = env
set_if_unset (some (k, v)) env = if is_empty (getenv env k) then setenv k v env else env

unfoldable pub load_lines : List Text → Environment → Environment
unfolding parse_line
load_lines [] env = env
load_lines (l ∷ ls) env = load_lines ls (set_if_unset (parse_line l) env)

-- loadDotEnv, on the content of the file, where it can be read.
unfoldable pub load_dot_env : Option Text → Environment → Environment
unfolding load_lines
load_dot_env none env = env
load_dot_env (some content) env = load_lines (split_on b'\n' content) env

-- strconv.ParseBool
unfoldable pub parse_bool : Text → Option Bool
parse_bool s =
    if contains_text
      (codes "1" ∷ codes "t" ∷ codes "T" ∷ codes "TRUE" ∷ codes "true" ∷ codes "True" ∷ []) s
    then some true
    else if contains_text
        (codes "0" ∷ codes "f" ∷ codes "F" ∷ codes "FALSE" ∷ codes "false" ∷ codes "False" ∷ []) s
    then some false
    else none

-- A value of the environment that cannot be parsed leaves the file's; the empty text cannot.
abbrev pub parsed_or {ℓ} : {A : Type ℓ} → Option A → A → A
parsed_or none d = d
parsed_or (some x) d = x

unfoldable pub env_text : Environment → String → Text → Text
env_text env name d = or_else (getenv env (codes name)) d

unfoldable pub env_int : Environment → String → ℤ → ℤ
env_int env name d =
    let v = getenv env (codes name) in if is_empty v then d else parsed_or (atoi v) d

unfoldable pub env_bool : Environment → String → Bool → Bool
unfolding parse_bool
env_bool env name d =
    let v = getenv env (codes name) in if is_empty v then d else parsed_or (parse_bool v) d

unfoldable pub override_database : Environment → DatabaseConfig → DatabaseConfig
override_database env d = record d {
  host = env_text env "DB_HOST" d.host;
  port = env_int env "DB_PORT" d.port;
  username = env_text env "DB_USER" d.username;
  password = env_text env "DB_PASSWORD" d.password;
  name = env_text env "DB_NAME" d.name;
  ssl_mode = env_text env "DB_SSLMODE" d.ssl_mode;
}

unfoldable pub override_server : Environment → ServerConfig → ServerConfig
override_server env s = record s {
  port = env_int env "PORT" s.port;
  host = env_text env "HOST" s.host;
  tls_enabled = env_bool env "TLS_ENABLED" s.tls_enabled;
  api_key = env_text env "API_KEY" s.api_key;
  api_user = env_text env "API_USER" s.api_user;
  api_pass = env_text env "API_PASS" s.api_pass;
}

unfoldable pub apply_overrides : Environment → Config → Config
unfolding override_database override_server
apply_overrides env c = record c {
  database = override_database env c.database;
  server = override_server env c.server;
  migration = record c.migration { enabled = env_bool env "MIGRATION_ENABLED" c.migration.enabled };
  reconciliation = record c.reconciliation {
    enabled = env_bool env "RECONCILIATION_ENABLED" c.reconciliation.enabled;
  };
}

pub data LoadResult : Type 0 where
  unreadable malformed_yaml : LoadResult
  loaded : Config → LoadResult

abbrev pub overridden : Environment → Option Config → LoadResult
overridden env none = malformed_yaml
overridden env (some c) = loaded (apply_overrides env c)

-- LoadConfig: `dot_env` and `file` are what can be read of the two files, and `parse` is the YAML
-- library. The environment keeps what .env set, also where an error is returned.
unfoldable pub load_config :
    (Text → Option Config) → Option Text → Option Text → Environment → Environment × LoadResult
unfolding load_dot_env apply_overrides
load_config parse dot_env file env =
    let env' = load_dot_env dot_env env in
    (env', elim file [ none ↦ unreadable | some content ↦ overridden env' (parse content) ])
