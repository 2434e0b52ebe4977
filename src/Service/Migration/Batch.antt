-- ===== src/Service/Migration/Batch.antt =====
-- internal/service/sync_service.go: what a batch does to the records and to the checkpoint.
use omni_blob.Base.{
  ℕ, ◌+◌, ◌≤◌, ◌≡◌, refl, ap, ◌∙◌, inl, inr, true, false, ◌||◌, Option, none, some, List, [], ◌∷◌,
  arith, ltb, ◌==◌, if◌then◌else◌, Bool-cases, length, All, codes, text_eq_refl,
}
use omni_blob.FileSystem.{FileSystem}
use omni_blob.Storage.{Saved, Outcome, saved, error}
use omni_blob.Entity.{BinaryFile, LogFileRsync}
use omni_blob.Repository.BinaryFiles.{Files, get_by_id, get_pending_files, set_status, limit_or}
use omni_blob.Repository.BinaryFiles.Rows.{get_by_id-update}
use omni_blob.Repository.Tables.{get_last_bin_id, get_last_bin_id-insert_log}
use omni_blob.Service.Migration.{
  MigrationEnv, FileLuck, Progress, move_legacy, is_done, record_migrated, migrated_to,
  migrate_file, migrate_files, highest, Store, server_name, log_of, finish_batch, start,
  run_migration_batch,
}

abbrev pub counted : Progress → ℕ
counted p = length p.executed + p.errors

module _ (env : MigrationEnv) where
  migrated_to-counted :
      (luck : FileLuck) (f : BinaryFile) (x : FileSystem × Outcome) (p : Progress)
      → counted (migrated_to env luck f x p) ≡ counted p + 1
  unfolding record_migrated
  migrated_to-counted luck f (disk, error e) p = omega arith
  migrated_to-counted luck f (disk, saved r) p = elim (Bool-cases luck.update_up) [
    | inl up ↦ rw (up, record_migrated) (omega arith)
    | inr down ↦ rw (down, record_migrated) (omega arith)
  ]

  module _ (luck : BinaryFile → FileLuck) where
    migrate_file-counted :
        (f : BinaryFile) (p : Progress) → counted (migrate_file env luck f p) ≡ counted p + 1
    unfolding migrate_file
    migrate_file-counted f p = elim (Bool-cases (is_done f)) [
      | inl done ↦ rw (done, migrate_file) (omega arith)
      | inr fresh ↦
          rw (fresh, migrate_file)
            (migrated_to-counted (luck f) f (move_legacy env (luck f) f p.disk) p)
    ]

    -- Every file of a batch counts once, as executed or as an error, in whatever order they finish.
    pub migrate_files-counted :
        (fs : Files) (p : Progress) → counted (migrate_files env luck fs p) ≡ counted p + length fs
    unfolding migrate_files
    migrate_files-counted [] p = omega arith
    migrate_files-counted (f ∷ fs) p =
        omega
          (arith, migrate_files-counted fs (migrate_file env luck f p), migrate_file-counted f p)

    migrated_to-others :
        (f : BinaryFile) (x : FileSystem × Outcome) (p : Progress) (m : ℕ)
        → (m == f.bin_id) ≡ false
        → get_by_id true m (migrated_to env (luck f) f x p).files ≡ get_by_id true m p.files
    unfolding record_migrated
    migrated_to-others f (disk, error e) p m h = refl
    migrated_to-others f (disk, saved r) p m h = elim (Bool-cases (luck f).update_up) [
      | inr down ↦ rw (down, record_migrated) refl
      | inl up ↦
          rw (up, record_migrated)
            (get_by_id-update m f.bin_id r.rel_path r.checksum r.size (codes "M") p.files
              ∙ kept r (get_by_id true m p.files))
    ]
      where
        kept :
            (r : Saved) (o : Option BinaryFile)
            → (elim o [
              | none ↦ none
              | some g ↦ some (
                  if m == f.bin_id
                  then set_status r.rel_path r.checksum r.size (codes "M") g
                  else g)
            ])
              ≡ o
        kept r none = refl
        kept r (some g) = rw h refl

    migrate_file-others :
        (f : BinaryFile) (p : Progress) (m : ℕ)
        → (m == f.bin_id) ≡ false
        → get_by_id true m (migrate_file env luck f p).files ≡ get_by_id true m p.files
    unfolding migrate_file
    migrate_file-others f p m h = elim (Bool-cases (is_done f)) [
      | inl done ↦ rw (done, migrate_file) refl
      | inr fresh ↦
          rw (fresh, migrate_file) (migrated_to-others f (move_legacy env (luck f) f p.disk) p m h)
    ]

    -- A batch leaves the records of all identifiers that are not in it as they are.
    pub migrate_files-others :
        (fs : Files) (p : Progress) (m : ℕ)
        → All (λ f. (m == f.bin_id) ≡ false) fs
        → get_by_id true m (migrate_files env luck fs p).files ≡ get_by_id true m p.files
    unfolding migrate_files
    migrate_files-others [] p m h = refl
    migrate_files-others (f ∷ fs) p m (h, hs) =
        migrate_files-others fs (migrate_file env luck f p) m hs ∙ migrate_file-others f p m h

highest-le : (n : ℕ) (fs : Files) → n ≤ highest n fs
unfolding highest
highest-le n [] = omega arith
highest-le n (f ∷ fs) = ground (arith, highest-le (if ltb n f.bin_id then f.bin_id else n) fs)

pub highest-All : (n : ℕ) (fs : Files) → All (λ f. f.bin_id ≤ highest n fs) fs
unfolding highest
highest-All n [] = tt
highest-All n (f ∷ fs) = (
  ground (arith, highest-le (if ltb n f.bin_id then f.bin_id else n) fs),
  highest-All (if ltb n f.bin_id then f.bin_id else n) fs,
)

finish_batch-checkpoint :
    (last : ℕ) (page : Files) (p : Progress) (logs : List LogFileRsync)
    → get_last_bin_id true server_name logs ≡ some last
    → get_last_bin_id true server_name (finish_batch true last page p logs).logs
      ≡ some (highest last page)
unfolding finish_batch log_of
finish_batch-checkpoint last page p logs e =
    let le = highest-le last page in
    elim (Bool-cases (ltb 0 (length p.executed) || ltb last (highest last page))) [
      | inr idle ↦ rw (idle, finish_batch) (e ∙ ap some (ground (arith, le, idle)))
      | inl busy ↦
          rw (busy, finish_batch)
            (get_last_bin_id-insert_log (log_of last page p) server_name logs last e
              ∙ ap some (ground (arith, le, text_eq_refl server_name)))
    ]

-- After a batch whose page was not empty, the checkpoint stands at the greatest identifier of the
-- page, failed files included, so that every file of the page is at the checkpoint or before it.
-- It is assumed that the queries and the log's insertion are answered.
pub run_migration_batch-checkpoint :
    (env : MigrationEnv) (luck : BinaryFile → FileLuck) (order : Files → Files) (size last : ℕ)
    (f : BinaryFile) (fs : Files) (s : Store)
    → get_last_bin_id true server_name s.logs ≡ some last
    → get_pending_files true last (limit_or size 100) s.files ≡ some (f ∷ fs)
    → (get_last_bin_id true server_name
          (run_migration_batch env luck order true true true size s).logs
        ≡ some (highest last (f ∷ fs)))
      × All (λ g. g.bin_id ≤ highest last (f ∷ fs)) (f ∷ fs)
unfolding run_migration_batch
run_migration_batch-checkpoint env luck order size last f fs s e page = (
  rw (e, run_migration_batch, page)
      (finish_batch-checkpoint last (f ∷ fs) (migrate_files env luck (order (f ∷ fs)) (start s))
        s.logs e),
  highest-All last (f ∷ fs),
)
