-- ===== src/Service/Migration.antt =====
-- internal/service/sync_service.go: the background migration of a batch. The workers of a batch
-- finish their files in some order, which `order` gives; each file is one step. The sidecar is a
-- parameter, as the repository does not define it.
pub mod Batch
use omni_blob.Base.{
  ℕ, zero, suc, ◌+◌, ◌-◌, ◌*◌, ◌/◌, ◌%◌, ◌^◌, ◌≤◌, ◌<◌, String, ◌≡◌, refl, sym, ap, ◌∙◌, fun_ext,
  ◌≢◌, ◌↔◌, ◌⊎◌, inl, inr, Bool, true, false, ◌&&◌, ◌||◌, not, Option, none, some, List, [], ◌∷◌,
  ◌++◌, map, reverse, arith, ltb, leb, ◌==◌, if◌then◌else◌, ltb→lt, lt→ltb, leb→le, ==_iff, tests,
  Bool-cases, Option-cases, length, length-append, take, keep_if, any_of, all_of, head_of, All, Any,
  length-keep_if-le, keep_if-append, All-append, Text, codes, text_eq, text_eq_iff, text_eq_refl,
  text_eq-common, is_empty, or_else, has_prefix, has_prefix-append, has_prefix-common,
  has_prefix_self, has_prefix-map, trim_prefix, has_byte, contains, has_byte-append, drop_while,
  trim_if, is_space, trim_space, lower_byte, to_lower, cons_head, split_on, first_piece,
  digits_fuel, decimal, decimal-digits, decimal-given, contains_text, Assoc, lookup, insert, delete,
  lookup-insert, lookup-delete, is_digit, digits_value, digits_value-decimal,
}
use omni_blob.FilePath.{slash, join}
use omni_blob.FileSystem.{FileSystem, Faults}
use omni_blob.Storage.{StorageService, Hash, Saved, Outcome, saved, error}
use omni_blob.Storage.Layout.{Calendar}
use omni_blob.Storage.Files.{migrate_legacy_file}
use omni_blob.Entity.{BinaryFile, LogFileRsync}
use omni_blob.Repository.BinaryFiles.{
  Files, get_pending_files, update_path_and_status, set_status, limit_or, is_migrated,
}
use omni_blob.Repository.Tables.{get_last_bin_id, insert_log}

pub record MigrationEnv : Type 0 where
  pub sha : Hash
  pub cal : Calendar
  pub storage : StorageService
  pub readable : Text → Bool
  pub dir_size : Text → ℕ
  pub save_metadata_sidecar : Text → BinaryFile → FileSystem → FileSystem
  pub now : ℕ

-- What fails for a file: its calls of the file system, the copy, and the update of its row.
pub record FileLuck : Type 0 where
  pub faults : Faults
  pub breaks : Bool
  pub update_up : Bool

pub record Progress : Type 0 where
  pub disk : FileSystem
  pub files : Files
  pub executed : List ℕ
  pub errors : ℕ

unfoldable pub legacy_path : BinaryFile → Text
legacy_path f =
    if is_empty f.path then join (or_else f.directory f.module_name ∷ f.file_name ∷ []) else f.path

-- The record is marked as migrated and its path has a directory.
abbrev pub is_done : BinaryFile → Bool
is_done f = is_migrated f && has_byte slash f.path

abbrev pub failed_file : FileSystem → Progress → Progress
failed_file disk p = record p { disk = disk; errors = p.errors + 1 }

-- The end of a worker, with the file copied.
unfoldable pub record_migrated :
    MigrationEnv → FileLuck → BinaryFile → Saved → FileSystem → Progress → Progress
record_migrated env luck f r disk p = if not luck.update_up then failed_file disk p else record p {
  disk =
      env.save_metadata_sidecar (join (env.storage.root_path ∷ r.rel_path ∷ []))
        (set_status r.rel_path r.checksum r.size (codes "M") f) disk;
  files = update_path_and_status f.bin_id r.rel_path r.checksum r.size (codes "M") p.files;
  executed = f.bin_id ∷ p.executed;
}

abbrev pub migrated_to :
    MigrationEnv → FileLuck → BinaryFile → (FileSystem × Outcome) → Progress → Progress
migrated_to env luck f (disk, error e) p = failed_file disk p
migrated_to env luck f (disk, saved r) p = record_migrated env luck f r disk p

unfoldable pub move_legacy :
    MigrationEnv → FileLuck → BinaryFile → FileSystem → FileSystem × Outcome
unfolding legacy_path
move_legacy env luck f disk =
    migrate_legacy_file env.sha env.cal env.storage env.readable luck.faults luck.breaks
      env.dir_size env.now f.module_name (legacy_path f) f.module_name f.directory f.bin_id
      f.file_name disk

unfoldable pub migrate_file :
    MigrationEnv → (BinaryFile → FileLuck) → BinaryFile → Progress → Progress
unfolding record_migrated
migrate_file env luck f p =
    if is_done f
    then record p { executed = f.bin_id ∷ p.executed }
    else migrated_to env (luck f) f (move_legacy env (luck f) f p.disk) p

unfoldable pub migrate_files : MigrationEnv → (BinaryFile → FileLuck) → Files → Progress → Progress
unfolding migrate_file
migrate_files env luck [] p = p
migrate_files env luck (f ∷ fs) p = migrate_files env luck fs (migrate_file env luck f p)

unfoldable pub highest : ℕ → Files → ℕ
highest n [] = n
highest n (f ∷ fs) = highest (if ltb n f.bin_id then f.bin_id else n) fs

-- The number of workers, between 1 and 8.
unfoldable pub worker_count : ℕ → ℕ
worker_count n = if leb n 0 then 2 else if ltb 8 n then 8 else n

pub record Store : Type 0 where
  pub disk : FileSystem
  pub files : Files
  pub logs : List LogFileRsync

abbrev pub server_name : Text
server_name = codes "local-storage-134"

abbrev pub or_first : Option ℕ → ℕ
or_first none = 0
or_first (some n) = n

unfoldable pub log_of : ℕ → Files → Progress → LogFileRsync
log_of last page p = record {
  server = server_name;
  last_bin_id = highest last page;
  bin_executed = p.executed;
  migrated = length p.executed;
  errors = p.errors;
}

-- The checkpoint, when anything was executed or it advances.
unfoldable pub finish_batch : Bool → ℕ → Files → Progress → List LogFileRsync → Store
finish_batch log_up last page p logs = record {
  disk = p.disk;
  files = p.files;
  logs =
      if ltb 0 (length p.executed) || ltb last (highest last page)
      then insert_log log_up (log_of last page p) logs
      else logs;
}

abbrev pub start : Store → Progress
start s = record { disk = s.disk; files = s.files; executed = []; errors = 0 }

abbrev pub run_page :
    MigrationEnv
    → (BinaryFile → FileLuck)
    → (Files → Files)
    → Bool
    → ℕ
    → Option Files
    → Store
    → Store
run_page env luck order log_up last none s = s
run_page env luck order log_up last (some []) s = s
run_page env luck order log_up last (some (f ∷ fs)) s =
    finish_batch log_up last (f ∷ fs) (migrate_files env luck (order (f ∷ fs)) (start s)) s.logs

-- runMigrationBatch. The three switches say whether the checkpoint's query, the page's query and the
-- log's insertion are answered.
unfoldable pub run_migration_batch :
    MigrationEnv
    → (BinaryFile → FileLuck)
    → (Files → Files)
    → Bool
    → Bool
    → Bool
    → ℕ
    → Store
    → Store
unfolding migrate_files finish_batch
run_migration_batch env luck order last_up page_up log_up batch_size s =
    let last = or_first (get_last_bin_id last_up server_name s.logs) in
    run_page env luck order log_up last
      (get_pending_files page_up last (limit_or batch_size 100) s.files) s
