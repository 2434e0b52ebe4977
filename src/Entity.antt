-- ===== src/Entity.antt =====
-- internal/entity: the rows of the tables. A value that may be NULL stands as the default that the
-- queries put for it.
use omni_blob.Base.{ℕ, Bool, List, Text}

pub record BinaryFile : Type 0 where
  pub bin_id : ℕ
  pub referensi_id : Text
  pub module_name : Text
  pub directory : Text
  pub file_name : Text
  pub path : Text
  pub size : ℕ
  pub mime_type : Text
  pub checksum : Text
  pub flag : Text
  pub create_date : ℕ
  pub app_name : Text

pub record PhysicalObject : Type 0 where
  pub content_hash : Text
  pub size : ℕ
  pub storage_path : Text
  pub first_stored_at : ℕ

pub record LogFileRsync : Type 0 where
  pub server : Text
  pub last_bin_id : ℕ
  pub bin_executed : List ℕ
  pub migrated : ℕ
  pub errors : ℕ

pub record OrphanFileLog : Type 0 where
  pub original_path : Text
  pub quarantine_path : Text
  pub size : ℕ
  pub action : Text
  pub reason : Text

pub record MigrationStats : Type 0 where
  pub total_files : ℕ
  pub migrated_files : ℕ
  pub total_migrated_bytes : ℕ

pub record VirtualNode : Type 0 where
  pub name : Text
  pub path : Text
  pub is_directory : Bool
  pub size : ℕ
  pub modified_time : ℕ
