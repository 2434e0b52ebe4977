-- ===== src/Examples/Starts.antt =====
-- Concrete runs of the start (cmd/file-sync/main.go).
use omni_blob.Base.{
  ◌≤◌, ◌≡◌, refl, inr, true, false, none, some, [], arith, codes, text_eq, lookup, insert, pos,
}
use omni_blob.Config.Load.{load_config, env_text, getenv}
use omni_blob.License.{verify_signature, check_decoded, grace_end}
use omni_blob.License.Watermark.{stored}
use omni_blob.License.Enforce.{NotRewound, IsTier, enforce_licensing-licensed_iff}
use omni_blob.Startup.{Libraries, Flags, Outside, apply_flags}
use omni_blob.Startup.Licensed.{licensing, run_main_licensed}
use omni_blob.Startup.Serving.{Loads, run_main-Serves_iff}
use omni_blob.Api.Auth.{combo_to_client}
use omni_blob.Api.Server.{absent, generate_self_signed_cert}
use omni_blob.Examples.Licences.{crypto, key, license, licensed_files, payload}
use omni_blob.Examples.Settings.{yaml}
use omni_blob.Examples.Sites.{machine}
use omni_blob.Examples.Orders.{bytewise}
use omni_blob.Examples.Stores.{no_dirs}
use omni_blob.Examples.Clients.{silent_ldap}
use omni_blob.Examples.Links.{urls, json}
use omni_blob.Examples.Requests.{env}

abbrev libraries : Libraries
libraries = record {
  parse = yaml;
  dot_env = none;
  config_file = λ p. some (codes "server:");
  crypto = crypto;
  public_key = key;
  three_months = λ t. t;
  writable = true;
  now = 70;
  connects = λ d. true;
  legacy_present = λ p. true;
  legacy_visits = λ p. [];
  makes_root = λ p. true;
  opens_audit = true;
  listens = true;
  cert_luck = record {
    key_made = true;
    cert_made = true;
    cert_created = true;
    cert_encoded = true;
    key_created = true;
    key_marshalled = true;
    key_encoded = true;
  };
  cert_files = record { cert = absent; key = absent };
  env = env;
  machine = machine;
  collation = bytewise;
  ldap = silent_ldap;
  json = json;
  urls = urls;
  host = codes "h";
  cwd = none;
  read_dir = no_dirs;
}

abbrev flags : Flags
flags = record {
  version = false;
  config_path = codes "configs/config.yaml";
  port = pos 9000;
  max_upload = pos 0;
  scan_legacy = false;
}

abbrev outside : Outside
outside = record {
  environment = [];
  license = licensed_files;
  table = record { rows = []; next_serial = 1 };
  audit_lines = [];
}

licensing-IsTier : IsTier (licensing libraries outside)
unfolding verify_signature check_decoded text_eq
licensing-IsTier =
    (enforce_licensing-licensed_iff crypto key (λ t. t) true 70 licensed_files license refl).1
      ((λ w e. ground arith), refl, omega arith, omega arith)

outside-Loads : Loads libraries flags (load_config yaml none (some (codes "server:")) []).1 outside
unfolding load_config apply_flags combo_to_client lookup insert env_text getenv
    generate_self_signed_cert
outside-Loads = (_, refl, licensing-IsTier, (refl, refl, refl, refl, (_, refl), (refl, inr refl)))

run_main_licensed_example :
    NotRewound (stored 60) 70
    × (verify_signature crypto license key ≡ none)
    × (20 ≤ 70)
    × (70 ≤ grace_end payload)
run_main_licensed_example =
    run_main_licensed libraries flags outside license refl
      (inr ((run_main-Serves_iff libraries flags outside).1 (refl, outside-Loads)))
