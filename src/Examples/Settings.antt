-- ===== src/Examples/Settings.antt =====
-- Concrete runs of the configuration (internal/config/config.go) and of the server's settings
-- (internal/api/server.go).
use omni_blob.Base.{ℕ, suc, ◌*◌, ◌<◌, ◌≡◌, true, false, Option, some, [], ◌∷◌, Text, codes, pos}
use omni_blob.Config.{Config}
use omni_blob.Config.Load.{Environment, load_config}
use omni_blob.Config.Layers.{Loads, load_config-Loads}
use omni_blob.Api.Server.{new_server, nanoseconds}
use omni_blob.Api.Server.Settings.{InWord, read_timeout_lem}
use omni_blob.Examples.Clients.{server}
use omni_blob.Examples.Stores.{config}

abbrev pub file_config : Config
file_config = record {
  server = server;
  auth = record { access_key = codes "ak"; secret_key = codes "sk" };
  storage = config;
  migration = record {
    enabled = true;
    batch_size = pos 100;
    interval_sec = pos 60;
    worker_count = pos 4;
  };
  reconciliation = record { enabled = false; batch_size = pos 100; interval_sec = pos 60 };
  database = record {
    host = codes "localhost";
    port = pos 5432;
    username = codes "u";
    password = codes "p";
    name = codes "d";
    ssl_mode = codes "disable";
    max_open_conn = pos 10;
    min_open_conn = pos 1;
    max_idle_time = pos 5;
    max_life_time = pos 60;
  };
  security = record { enabled = false; mode = []; allowed_socket_ips = []; auth_type = [] };
}

abbrev pub yaml : Text → Option Config
yaml content = some file_config

abbrev dot_env : Text
dot_env = codes "# database\nDB_HOST=\"db1\"\nPORT=9000\n"

abbrev pub os_env : Environment
os_env = (codes "PORT", codes "8080") ∷ []

load_config-Loads_example :
    Loads yaml
      (some dot_env)
      (some (codes "server:"))
      os_env
      (load_config yaml (some dot_env) (some (codes "server:")) os_env).1
load_config-Loads_example = load_config-Loads yaml (some dot_env) (some (codes "server:")) os_env

read_timeout_lem_example :
    InWord (new_server server file_config.security).read_timeout
    × ((n : ℕ)
        → server.read_timeout_sec ≡ pos (suc n)
        → n < 9223372036
        → (new_server server file_config.security).read_timeout ≡ suc n * nanoseconds)
read_timeout_lem_example = read_timeout_lem server file_config.security
