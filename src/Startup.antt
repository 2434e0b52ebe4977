-- ===== src/Startup.antt =====
-- cmd/file-sync/main.go: main, from the flags to the running server. The order of the steps is the
-- code's; each may end the program. What the background jobs do is in Service/Worker.
pub mod Licensed
pub mod Serving
use omni_blob.Base.{
  ℕ, zero, suc, ◌+◌, ◌-◌, ◌*◌, ◌/◌, ◌%◌, ◌^◌, ◌≤◌, ◌<◌, String, ◌≡◌, refl, sym, ap, ◌∙◌, fun_ext,
  ◌≢◌, ◌↔◌, ◌⊎◌, inl, inr, Bool, true, false, ◌&&◌, ◌||◌, not, Option, none, some, List, [], ◌∷◌,
  ◌++◌, map, reverse, arith, ltb, leb, ◌==◌, if◌then◌else◌, ltb→lt, lt→ltb, leb→le, ==_iff, tests,
  Bool-cases, Option-cases, length, length-append, take, keep_if, any_of, all_of, head_of, All, Any,
  length-keep_if-le, keep_if-append, All-append, Text, codes, text_eq, text_eq_iff, text_eq_refl,
  text_eq-common, is_empty, or_else, has_prefix, has_prefix-append, has_prefix-common,
  has_prefix_self, has_prefix-map, trim_prefix, has_byte, contains, has_byte-append, drop_while,
  trim_if, is_space, trim_space, lower_byte, to_lower, cons_head, split_on, first_piece, cons_cut,
  cut, digits_fuel, decimal, decimal-digits, decimal-given, contains_text, Assoc, lookup, insert,
  delete, lookup-insert, lookup-delete, delete-insert, is_digit, digits_value, digits_value-decimal,
  ℤ, negate, is_positive, magnitude, signed_within, atoi, pos, negsuc,
}
use omni_blob.Config.{Config, ServerConfig, DatabaseConfig, MigrationConfig, ReconciliationConfig}
use omni_blob.Config.Load.{Environment, LoadResult, unreadable, malformed_yaml, loaded, load_config}
use omni_blob.License.{Crypto}
use omni_blob.License.Enforce.{Files, Decision, tier, enforce_licensing}
use omni_blob.Scanner.{Table, Step, run_legacy_scanner}
use omni_blob.Storage.{StorageService}
use omni_blob.Audit.{Json, AuditLogger, new_audit_logger}
use omni_blob.Repository.VirtualTree.{Collation}
use omni_blob.Service.Dashboard.{DashboardHandler, Machine}
use omni_blob.Presign.{UrlLibrary}
use omni_blob.Api.Auth.{Combos, LdapServer, combo_to_client}
use omni_blob.Api.Explorer.{ReadDir}
use omni_blob.Api.Handler.{Env, new_handler}
use omni_blob.Api.Server.{
  Server, new_server, CertLuck, CertFiles, StartResult, listen_failed, cert_failed, serve_failed,
  stopped, start,
}
use omni_blob.Api.Router.{Site}

pub record Flags : Type 0 where
  pub version : Bool
  pub config_path : Text
  pub port : ℤ
  pub max_upload : ℤ
  pub scan_legacy : Bool

-- The libraries, and what the calls of the start answer.
pub record Libraries : Type 0 where
  pub parse : Text → Option Config
  pub dot_env : Option Text
  pub config_file : Text → Option Text
  pub crypto : Crypto
  pub public_key : Text
  pub three_months : ℕ → ℕ
  pub writable : Bool
  pub now : ℕ
  pub connects : DatabaseConfig → Bool
  pub legacy_present : Text → Bool
  pub legacy_visits : Text → List Step
  pub makes_root : Text → Bool
  pub opens_audit : Bool
  pub listens : Bool
  pub cert_luck : CertLuck
  pub cert_files : CertFiles
  pub env : Env
  pub machine : Machine
  pub collation : Collation
  pub ldap : LdapServer
  pub json : Json
  pub urls : UrlLibrary
  pub host : Text
  pub cwd : Option Text
  pub read_dir : Text → ReadDir

-- What is outside the program: its environment, the files of the licence, the rows of the files, and
-- the lines of the latest audit file.
pub record Outside : Type 0 where
  pub environment : Environment
  pub license : Files
  pub table : Table
  pub audit_lines : List Text

-- The parts that run until a signal.
pub record Running : Type 0 where
  pub site : Site
  pub server : Server
  pub audit : AuditLogger
  pub migration : MigrationConfig
  pub reconciliation : ReconciliationConfig

-- How the start ends.
pub data Start : Type 0 where
  version_printed config_failed database_failed storage_failed audit_failed : Start
  duplicate_credentials : Start
  unlicensed : Decision → Start
  scanned : ℕ → Start
  server_failed : StartResult → Start
  running : Running → Start

abbrev pub given_or : ℤ → ℤ → ℤ
given_or (pos zero) d = d
given_or (pos (suc n)) d = pos (suc n)
given_or (negsuc n) d = negsuc n

-- The overrides of the command line.
unfoldable pub apply_flags : Flags → Config → Config
apply_flags flags c = record c {
  server = record c.server {
    port = given_or flags.port c.server.port;
    max_upload_size_mb = given_or flags.max_upload c.server.max_upload_size_mb;
  };
}

-- NewStorageService; whether the root's directory can be made is given.
unfoldable pub new_storage_service : Config → StorageService
new_storage_service c = record {
  root_path = c.storage.root_path;
  legacy_path = c.storage.legacy_path;
  sharding_type = c.storage.sharding_type;
}

abbrev pub dashboard_of : Config → Text → DashboardHandler
dashboard_of c t = record {
  root_path = c.storage.root_path;
  clients = map (λ k. k.name) c.server.clients;
  migration_enabled = c.migration.enabled;
  license_tier = t;
}

-- What main makes of the configuration and the licence's tier.
unfoldable pub site_of : Libraries → Config → Text → Combos → Site
unfolding new_storage_service
site_of lib c t combos = record {
  handler = new_handler (new_storage_service c) c.server.allowed_extensions;
  env = lib.env;
  dashboard = dashboard_of c t;
  machine = lib.machine;
  collation = lib.collation;
  server = c.server;
  security = c.security;
  storage = c.storage;
  combos = combos;
  ldap = lib.ldap;
  json = lib.json;
  urls = lib.urls;
  host = lib.host;
  access_key = c.auth.access_key;
  secret_key = c.auth.secret_key;
  has_db = true;
  cwd = lib.cwd;
  read_dir = lib.read_dir;
}

-- The goroutine of httpServer.Start, whose error ends the program. The requests are served from
-- Serve on, so an error of Serve itself comes later.
abbrev pub served_with : Running → StartResult → Start
served_with r listen_failed = server_failed listen_failed
served_with r cert_failed = server_failed cert_failed
served_with r serve_failed = running r
served_with r stopped = running r

unfoldable pub launched : Libraries → Running → Start
launched lib r = served_with r (start r.server lib.listens lib.cert_luck true lib.cert_files).1

-- The repositories, the services, the router and the server.
abbrev pub assembled : Libraries → Config → Text → List Text → Combos → Running
assembled lib c t lines combos = record {
  site = site_of lib c t combos;
  server = new_server c.server c.security;
  audit = new_audit_logger lib.json lines;
  migration = c.migration;
  reconciliation = c.reconciliation;
}

abbrev pub routed : Libraries → Config → Text → List Text → Option Combos → Start
routed lib c t lines none = duplicate_credentials
routed lib c t lines (some combos) = launched lib (assembled lib c t lines combos)

-- Steps 3 to 6.
unfoldable pub start_services : Libraries → Config → Text → List Text → Start
unfolding site_of launched
start_services lib c t lines =
    if not (lib.makes_root c.storage.root_path)
    then storage_failed
    else if not lib.opens_audit
    then audit_failed
    else routed lib c t lines (combo_to_client c.server)

-- Step 2 and the scan.
unfoldable pub connected : Libraries → Flags → Config → Text → Outside → Outside × Start
unfolding start_services
connected lib flags c t out =
    if flags.scan_legacy
    then (let (table, n) =
          run_legacy_scanner (lib.legacy_present c.storage.legacy_path)
            (lib.legacy_visits c.storage.legacy_path) out.table in
        (record out { table = table }, scanned n))
    else (out, start_services lib c t out.audit_lines)

abbrev pub decided : Libraries → Flags → Config → Decision → Outside → Outside × Start
decided lib flags c (tier t) out =
    if lib.connects c.database then connected lib flags c t out else (out, database_failed)
decided lib flags c d out = (out, unlicensed d)

-- Steps 1 and 1.5, behind the reading of the configuration.
abbrev pub configured : Libraries → Flags → LoadResult → Outside → Outside × Start
configured lib flags unreadable out = (out, config_failed)
configured lib flags malformed_yaml out = (out, config_failed)
configured lib flags (loaded c) out =
    let (files, d) =
      enforce_licensing lib.crypto lib.public_key lib.three_months lib.writable lib.now
        out.license in
    decided lib flags (apply_flags flags c) d (record out { license = files })

unfoldable pub run_main : Libraries → Flags → Outside → Outside × Start
unfolding connected apply_flags
run_main lib flags out =
    if flags.version
    then (out, version_printed)
    else (let (environment, r) =
          load_config lib.parse lib.dot_env (lib.config_file flags.config_path) out.environment in
        configured lib flags r (record out { environment = environment }))
