-- ===== src/Config.antt =====
-- internal/config/config.go: the structs of the configuration.
pub mod Load
pub mod DotEnv
pub mod Layers
use omni_blob.Base.{Bool, List, Text, ℤ}

pub record AuthConfig : Type 0 where
  pub access_key : Text
  pub secret_key : Text

pub record LdapConfig : Type 0 where
  pub enabled : Bool
  pub use_tls : Bool
  pub skip_verify : Bool
  pub server_addr : Text
  pub base_dn : Text
  pub bind_dn : Text
  pub bind_password : Text
  pub user_filter : Text
  pub group_search_base_dn : Text
  pub group_search_filter : Text

-- An entry of the configured clients.
pub record ClientConfig : Type 0 where
  pub name : Text
  pub api_key : Text
  pub user : Text
  pub password : Text
  pub whitelist_ips : List Text
  pub allowed_modules : List Text

pub record ServerConfig : Type 0 where
  pub host : Text
  pub port : ℤ
  pub tls_enabled : Bool
  pub read_timeout_sec : ℤ
  pub write_timeout_sec : ℤ
  pub max_upload_size_mb : ℤ
  pub api_key : Text
  pub api_user : Text
  pub api_pass : Text
  pub allowed_extensions : List Text
  pub rate_limit_rpm : ℤ
  pub ldap : LdapConfig
  pub clients : List ClientConfig

pub record SecurityConfig : Type 0 where
  pub enabled : Bool
  pub mode : Text
  pub allowed_socket_ips : List Text
  pub auth_type : Text

pub record StorageConfig : Type 0 where
  pub root_path : Text
  pub legacy_path : Text
  pub sharding_type : Text

pub record MigrationConfig : Type 0 where
  pub enabled : Bool
  pub batch_size : ℤ
  pub interval_sec : ℤ
  pub worker_count : ℤ

pub record ReconciliationConfig : Type 0 where
  pub enabled : Bool
  pub batch_size : ℤ
  pub interval_sec : ℤ

pub record DatabaseConfig : Type 0 where
  pub host : Text
  pub port : ℤ
  pub username : Text
  pub password : Text
  pub name : Text
  pub ssl_mode : Text
  pub max_open_conn : ℤ
  pub min_open_conn : ℤ
  pub max_idle_time : ℤ
  pub max_life_time : ℤ

pub record Config : Type 0 where
  pub server : ServerConfig
  pub auth : AuthConfig
  pub storage : StorageConfig
  pub migration : MigrationConfig
  pub reconciliation : ReconciliationConfig
  pub database : DatabaseConfig
  pub security : SecurityConfig
