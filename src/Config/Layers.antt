-- ===== src/Config/Layers.antt =====
-- internal/config/config.go: which of the environment, .env and the file gives each setting.
use omni_blob.Base.{
  String, ◌≡◌, refl, ap, ◌∙◌, Bool, Option, none, some, [], ◌∷◌, if◌then◌else◌, Text, codes,
  text_eq, is_empty, or_else, ℤ, atoi,
}
use omni_blob.Config.{Config}
use omni_blob.Config.Load.{
  Environment, LoadResult, unreadable, malformed_yaml, loaded, getenv, load_dot_env, parse_bool,
  parsed_or, env_text, env_int, env_bool, load_config, apply_overrides, override_server,
  override_database, overridden,
}
use omni_blob.Config.DotEnv.{dot_env_value, or_else_assoc, getenv-load_dot_env}

-- A setting that is a text: of the environment, else of .env, else of the file.
abbrev text_layers : Environment → Option Text → String → Text → Text
text_layers env dot_env name d =
    or_else (getenv env (codes name)) (or_else (dot_env_value (codes name) dot_env) d)

-- A number or a switch: the text that comes first decides, and where it cannot be parsed the file.
abbrev pub first_layer : Environment → Option Text → String → Text
first_layer env dot_env name =
    or_else (getenv env (codes name)) (dot_env_value (codes name) dot_env)

abbrev int_layers : Environment → Option Text → String → ℤ → ℤ
int_layers env dot_env name d = parsed_or (atoi (first_layer env dot_env name)) d

abbrev bool_layers : Environment → Option Text → String → Bool → Bool
bool_layers env dot_env name d = parsed_or (parse_bool (first_layer env dot_env name)) d

-- The configuration `c'` is the file's `c` with the settings of the layers.
pub record IsLayered (env : Environment) (dot_env : Option Text) (c c' : Config) : Type 0 where
  pub db_host : c'.database.host ≡ text_layers env dot_env "DB_HOST" c.database.host
  pub db_port : c'.database.port ≡ int_layers env dot_env "DB_PORT" c.database.port
  pub db_user : c'.database.username ≡ text_layers env dot_env "DB_USER" c.database.username
  pub db_password : c'.database.password ≡ text_layers env dot_env "DB_PASSWORD" c.database.password
  pub db_name : c'.database.name ≡ text_layers env dot_env "DB_NAME" c.database.name
  pub db_ssl : c'.database.ssl_mode ≡ text_layers env dot_env "DB_SSLMODE" c.database.ssl_mode
  pub port : c'.server.port ≡ int_layers env dot_env "PORT" c.server.port
  pub host : c'.server.host ≡ text_layers env dot_env "HOST" c.server.host
  pub tls : c'.server.tls_enabled ≡ bool_layers env dot_env "TLS_ENABLED" c.server.tls_enabled
  pub api_key : c'.server.api_key ≡ text_layers env dot_env "API_KEY" c.server.api_key
  pub api_user : c'.server.api_user ≡ text_layers env dot_env "API_USER" c.server.api_user
  pub api_pass : c'.server.api_pass ≡ text_layers env dot_env "API_PASS" c.server.api_pass
  pub migration : c'.migration ≡ record c.migration {
    enabled = bool_layers env dot_env "MIGRATION_ENABLED" c.migration.enabled;
  }
  pub reconciliation : c'.reconciliation ≡ record c.reconciliation {
    enabled = bool_layers env dot_env "RECONCILIATION_ENABLED" c.reconciliation.enabled;
  }
  pub clients : c'.server.clients ≡ c.server.clients
  pub auth : c'.auth ≡ c.auth
  pub storage : c'.storage ≡ c.storage
  pub security : c'.security ≡ c.security

env_text-layers :
    (env : Environment) (dot_env : Option Text) (name : String) (d : Text)
    → env_text (load_dot_env dot_env env) name d ≡ text_layers env dot_env name d
unfolding env_text
env_text-layers env dot_env name d =
    ap (λ t. or_else t d) (getenv-load_dot_env dot_env (codes name) env)
    ∙ or_else_assoc (getenv env (codes name)) (dot_env_value (codes name) dot_env) d

int_of_blank :
    (v : Text) (d : ℤ) → (if is_empty v then d else parsed_or (atoi v) d) ≡ parsed_or (atoi v) d
unfolding atoi
int_of_blank [] d = refl
int_of_blank (c ∷ v) d = refl

bool_of_blank :
    (v : Text) (d : Bool)
    → (if is_empty v then d else parsed_or (parse_bool v) d) ≡ parsed_or (parse_bool v) d
unfolding parse_bool text_eq
bool_of_blank [] d = refl
bool_of_blank (c ∷ v) d = refl

env_int-layers :
    (env : Environment) (dot_env : Option Text) (name : String) (d : ℤ)
    → env_int (load_dot_env dot_env env) name d ≡ int_layers env dot_env name d
unfolding env_int
env_int-layers env dot_env name d =
    int_of_blank (getenv (load_dot_env dot_env env) (codes name)) d
    ∙ ap (λ t. parsed_or (atoi t) d) (getenv-load_dot_env dot_env (codes name) env)

env_bool-layers :
    (env : Environment) (dot_env : Option Text) (name : String) (d : Bool)
    → env_bool (load_dot_env dot_env env) name d ≡ bool_layers env dot_env name d
unfolding env_bool
env_bool-layers env dot_env name d =
    bool_of_blank (getenv (load_dot_env dot_env env) (codes name)) d
    ∙ ap (λ t. parsed_or (parse_bool t) d) (getenv-load_dot_env dot_env (codes name) env)

overrides-IsLayered :
    (env : Environment) (dot_env : Option Text) (c : Config)
    → IsLayered env dot_env c (apply_overrides (load_dot_env dot_env env) c)
unfolding apply_overrides override_server override_database
overrides-IsLayered env dot_env c = record {
  db_host = env_text-layers env dot_env "DB_HOST" c.database.host;
  db_port = env_int-layers env dot_env "DB_PORT" c.database.port;
  db_user = env_text-layers env dot_env "DB_USER" c.database.username;
  db_password = env_text-layers env dot_env "DB_PASSWORD" c.database.password;
  db_name = env_text-layers env dot_env "DB_NAME" c.database.name;
  db_ssl = env_text-layers env dot_env "DB_SSLMODE" c.database.ssl_mode;
  port = env_int-layers env dot_env "PORT" c.server.port;
  host = env_text-layers env dot_env "HOST" c.server.host;
  tls = env_bool-layers env dot_env "TLS_ENABLED" c.server.tls_enabled;
  api_key = env_text-layers env dot_env "API_KEY" c.server.api_key;
  api_user = env_text-layers env dot_env "API_USER" c.server.api_user;
  api_pass = env_text-layers env dot_env "API_PASS" c.server.api_pass;
  migration =
      ap {A = Bool} (λ b. record c.migration { enabled = b })
        (env_bool-layers env dot_env "MIGRATION_ENABLED" c.migration.enabled);
  reconciliation =
      ap {A = Bool} (λ b. record c.reconciliation { enabled = b })
        (env_bool-layers env dot_env "RECONCILIATION_ENABLED" c.reconciliation.enabled);
  clients = refl;
  auth = refl;
  storage = refl;
  security = refl;
}

-- Why a configuration is refused, or what a loaded one holds.
abbrev pub Loads :
    (Text → Option Config) → Option Text → Option Text → Environment → LoadResult → Type 0
Loads parse dot_env file env unreadable = file ≡ none
Loads parse dot_env file env malformed_yaml =
    (content : Text) × (file ≡ some content) × (parse content ≡ none)
Loads parse dot_env file env (loaded c') =
    (content : Text) × (c : Config) × (file ≡ some content)
    × (parse content ≡ some c)
    × IsLayered env dot_env c c'

overridden-Loads :
    (parse : Text → Option Config) (dot_env : Option Text) (content : Text) (env : Environment)
    (o : Option Config)
    → parse content ≡ o
    → Loads parse dot_env (some content) env (overridden (load_dot_env dot_env env) o)
overridden-Loads parse dot_env content env none e = (content, refl, e)
overridden-Loads parse dot_env content env (some c) e =
    (content, c, refl, e, overrides-IsLayered env dot_env c)

-- LoadConfig fails where the file cannot be read, with one error, or where it is no YAML, with
-- another. Otherwise each of the fourteen settings is the environment's where that has one, else
-- the one of .env, else the file's, and a text that is no number or switch leaves the file's; the
-- clients and the sections auth, storage and security are the file's.
pub load_config-Loads :
    (parse : Text → Option Config) (dot_env file : Option Text) (env : Environment)
    → Loads parse dot_env file env (load_config parse dot_env file env).1
unfolding load_config
load_config-Loads parse dot_env none env = refl
load_config-Loads parse dot_env (some content) env =
    overridden-Loads parse dot_env content env (parse content) refl
