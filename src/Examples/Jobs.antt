-- ===== src/Examples/Jobs.antt =====
-- Concrete runs of the jobs (internal/service).
use omni_blob.Base.{
  pos, ◌≡◌, refl, inl, true, false, none, some, List, [], ◌∷◌, reverse, arith, any_of, Text, codes,
  text_eq, has_prefix, trim_prefix, split_on,
}
use omni_blob.FilePath.{clean}
use omni_blob.FileSystem.{file, put, no_faults}
use omni_blob.Entity.{BinaryFile}
use omni_blob.Repository.BinaryFiles.{exists_by_path}
use omni_blob.Repository.Tables.{get_last_bin_id}
use omni_blob.Service.Migration.{MigrationEnv, FileLuck, Store, server_name}
use omni_blob.Config.{MigrationConfig}
use omni_blob.Service.Worker.{Event, ticked, Around, start_background_migration}
use omni_blob.Service.Worker.Drains.{IsDrained, start_background_migration_drains}
use omni_blob.Service.Dedup.{
  DedupConfig, Visit, directory, regular, rel_below, scan, Job, MoveLuck,
  find_and_quarantine_orphans,
}
use omni_blob.Service.Dedup.Guardrails.{find_and_quarantine_orphans-keeps}
use omni_blob.Service.Dedup.Unnamed.{is_listed, scan-unnamed}
use omni_blob.Examples.Data.{service, hash, calendar, no_disk, row}

abbrev env : MigrationEnv
env = record {
  sha = hash;
  cal = calendar;
  storage = service;
  readable = λ p. true;
  dir_size = λ p. 4096;
  save_metadata_sidecar = λ p f fs. fs;
  now = 9;
}

abbrev luck : BinaryFile → FileLuck
luck f = record { faults = no_faults; breaks = false; update_up = true }

abbrev store : Store
store = record { disk = no_disk; files = row 3 ∷ row 7 ∷ []; logs = [] }

no_checkpoint : get_last_bin_id true server_name store.logs ≡ some 0
unfolding get_last_bin_id
no_checkpoint = refl

abbrev around : Around
around = record {
  env = env;
  luck = luck;
  order = reverse;
  last_up = true;
  page_up = true;
  log_up = true;
}

abbrev migration : MigrationConfig
migration = record {
  enabled = true;
  batch_size = pos 1;
  interval_sec = pos 60;
  worker_count = pos 4;
}

abbrev six_ticks : List (Event Around)
six_ticks =
    ticked around
    ∷ ticked around
    ∷ ticked around
    ∷ ticked around
    ∷ ticked around
    ∷ ticked around
    ∷ []

start_background_migration_drains_example :
    IsDrained migration (start_background_migration migration around six_ticks store)
start_background_migration_drains_example =
    start_background_migration_drains migration around six_ticks 0 7 store refl (refl, refl, refl)
      (
        (refl, refl, refl),
        (
          (refl, refl, refl),
          (
            (refl, refl, refl),
            ((refl, refl, refl), ((refl, refl, refl), ((refl, refl, refl), tt))),
          ),
        ),
      )
      no_checkpoint (omega arith, (omega arith, tt)) (omega arith)

abbrev config : DedupConfig
config = record {
  storage_root = codes "/srv";
  quarantine_root = codes "/srv/_quarantine";
  dry_run = false;
  grace_period_days = 1;
  max_move_limit = 100;
}

abbrev object : Text
object = codes "/srv/objects/abc"

abbrev visits : List Visit
visits = directory (codes "/srv") ∷ directory (codes "/srv/objects") ∷ regular object 3 ∷ []

not_named : any_of (λ f. text_eq f.path (rel_below config object)) store.files ≡ false
unfolding text_eq clean trim_prefix split_on
not_named = refl

scan-unnamed_example :
    is_listed object (scan config 5 (λ x. exists_by_path true x store.files) none visits) ≡ true
unfolding has_prefix
scan-unnamed_example =
    scan-unnamed config 5 store.files
      (directory (codes "/srv") ∷ directory (codes "/srv/objects") ∷ []) [] object 3 not_named
      (omega arith) (refl, (refl, tt))

abbrev careful : DedupConfig
careful = record config { dry_run = true }

abbrev job : Job
job = record { disk = put object (file (codes "hello") 3) no_disk; logs = [] }

abbrev moves_all : MoveLuck
moves_all = record {
  stats = λ p. true;
  dir_size = λ p. 4096;
  makes = λ p. true;
  moves = λ p. true;
  log_up = true;
}

object_there : job.disk object ≡ some (file (codes "hello") 3)
unfolding text_eq
object_there = refl

find_and_quarantine_orphans-keeps_example :
    (find_and_quarantine_orphans careful true moves_all 5 true store.files visits job).0.disk object
    ≡ some (file (codes "hello") 3)
find_and_quarantine_orphans-keeps_example =
    find_and_quarantine_orphans-keeps careful true moves_all 5 true store.files visits job object
      (file (codes "hello") 3) object_there (inl refl)
