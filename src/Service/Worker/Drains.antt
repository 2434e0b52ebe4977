-- ===== src/Service/Worker/Drains.antt =====
-- internal/service/sync_service.go: the loop reads every record.
use omni_blob.Base.{
  ℕ, zero, suc, ◌+◌, ◌≤◌, ◌≡◌, refl, sym, ap, ◌∙◌, ◌⊎◌, inl, inr, true, Option, none, some, List,
  [], ◌∷◌, arith, Bool-cases, length, All, Text, codes,
}
use omni_blob.Config.{MigrationConfig}
use omni_blob.FileSystem.{FileSystem}
use omni_blob.Storage.{Outcome, saved, error}
use omni_blob.Entity.{BinaryFile}
use omni_blob.Repository.BinaryFiles.{Files, get_pending_files, update_path_and_status, limit_or}
use omni_blob.Repository.BinaryFiles.Pages.{UpTo, page_after, page_end}
use omni_blob.Repository.Tables.{get_last_bin_id}
use omni_blob.Service.Migration.{
  MigrationEnv, FileLuck, Progress, move_legacy, is_done, record_migrated, migrated_to,
  migrate_file, migrate_files, highest, Store, server_name, finish_batch, start,
  run_migration_batch, run_page, or_first,
}
use omni_blob.Service.Migration.Batch.{run_migration_batch-checkpoint}
use omni_blob.Service.Worker.{
  Event, cancelled, stopped, ticked, Around, size_of, run_batch, work, start_background,
  start_background_migration,
}

-- A batch changes no identifier.
update-UpTo :
    (m n : ℕ) (path checksum : Text) (size : ℕ) (flag : Text) (t : Files)
    → UpTo m t
    → UpTo m (update_path_and_status n path checksum size flag t)
unfolding update_path_and_status
update-UpTo m n path checksum size flag [] h = tt
update-UpTo m n path checksum size flag (f ∷ t) (h, hs) =
    (ground (arith, h), update-UpTo m n path checksum size flag t hs)

module _ (env : MigrationEnv) (m : ℕ) where
  migrated_to-UpTo :
      (luck : FileLuck) (f : BinaryFile) (x : FileSystem × Outcome) (p : Progress)
      → UpTo m p.files
      → UpTo m (migrated_to env luck f x p).files
  unfolding record_migrated
  migrated_to-UpTo luck f (disk, error e) p h = h
  migrated_to-UpTo luck f (disk, saved r) p h = elim (Bool-cases luck.update_up) [
    | inl up ↦
        rw (up, record_migrated)
          (update-UpTo m f.bin_id r.rel_path r.checksum r.size (codes "M") p.files h)
    | inr down ↦ rw (down, record_migrated) h
  ]

  migrate_files-UpTo :
      (luck : BinaryFile → FileLuck) (fs : Files) (p : Progress)
      → UpTo m p.files
      → UpTo m (migrate_files env luck fs p).files
  unfolding migrate_files migrate_file
  migrate_files-UpTo luck [] p h = h
  migrate_files-UpTo luck (f ∷ fs) p h =
      migrate_files-UpTo luck fs (migrate_file env luck f p) (elim (Bool-cases (is_done f)) [
        | inl done ↦ rw (done) h
        | inr again ↦
            rw (again) (migrated_to-UpTo (luck f) f (move_legacy env (luck f) f p.disk) p h)
      ])

page_passed :
    (c n : ℕ) (t : Files) → get_pending_files true c (limit_or n 100) t ≡ some [] → UpTo c t
page_passed c zero t e = page_end c 99 t e
page_passed c (suc n) t e =
    let g : limit_or (suc n) 100 ≡ suc n = ground arith in
    page_end c n t (ap (λ k. get_pending_files true c k t) (sym g) ∙ e)

UpTo-le : (m n : ℕ) (t : Files) → m ≤ n → UpTo m t → UpTo n t
UpTo-le m n [] h u = tt
UpTo-le m n (f ∷ t) h (u, us) = (omega (arith, h, u), UpTo-le m n t h us)

module _ (cfg : MigrationConfig) where
  -- At most `k` batches are left until the checkpoint has passed every record, all up to `m`.
  abbrev Left : ℕ → ℕ → Store → Type 0
  Left m k s =
      (c : ℕ) × (get_last_bin_id true server_name s.logs ≡ some c)
      × UpTo m s.files
      × (UpTo c s.files ⊎ (m ≤ c + k))

  abbrev pub Answered : Around → Type 0
  Answered a = (a.last_up ≡ true) × (a.page_up ≡ true) × (a.log_up ≡ true)

  abbrev pub IsAnswered : Event Around → Type 0
  IsAnswered cancelled = ⊥
  IsAnswered stopped = ⊥
  IsAnswered (ticked a) = Answered a

  abbrev size : ℕ
  size = size_of cfg.batch_size

  abbrev batch : Around → Store → Store
  batch a s = run_migration_batch a.env a.luck a.order true true true size s

  run_batch-Answered : (a : Around) (s : Store) → Answered a → run_batch cfg a s ≡ batch a s
  run_batch-Answered a s (e, f, g) = rw (e, f, g) refl

  batch_idle :
      (a : Around) (c : ℕ) (s : Store)
      → get_last_bin_id true server_name s.logs ≡ some c
      → get_pending_files true c (limit_or size 100) s.files ≡ some []
      → batch a s ≡ s
  unfolding run_migration_batch
  batch_idle a c s e page = rw (e, run_migration_batch, page) refl

  page-UpTo :
      (a : Around) (m last : ℕ) (page : Option Files) (s : Store)
      → UpTo m s.files
      → UpTo m (run_page a.env a.luck a.order true last page s).files
  unfolding finish_batch
  page-UpTo a m last none s h = h
  page-UpTo a m last (some []) s h = h
  page-UpTo a m last (some (f ∷ fs)) s h =
      migrate_files-UpTo a.env m a.luck (a.order (f ∷ fs)) (start s) h

  batch-UpTo : (a : Around) (m : ℕ) (s : Store) → UpTo m s.files → UpTo m (batch a s).files
  unfolding run_migration_batch
  batch-UpTo a m s h =
      let last = or_first (get_last_bin_id true server_name s.logs) in
      page-UpTo a m last (get_pending_files true last (limit_or size 100) s.files) s h

  batch-Left :
      (a : Around) (m k : ℕ) (s : Store) (page : Option Files) (c : ℕ)
      → get_last_bin_id true server_name s.logs ≡ some c
      → get_pending_files true c (limit_or size 100) s.files ≡ page
      → UpTo m s.files
      → UpTo c s.files ⊎ (m ≤ c + suc k)
      → Left m k (batch a s)
  unfolding get_pending_files
  batch-Left a m k s none c e p u l = absurd (ground (arith, p))
  batch-Left a m k s (some []) c e p u l =
      rw (batch_idle a c s e p) (c, e, u, inl (page_passed c size s.files p))
  batch-Left a m k s (some (f ∷ fs)) c e p u l =
      let (last, top) = run_migration_batch-checkpoint a.env a.luck a.order size c f fs s e p in
      let later = page_after c (limit_or size 100) s.files f fs p in
      (
        highest c (f ∷ fs),
        last,
        batch-UpTo a m s u,
        elim l [
          | inl passed ↦ inl (
              UpTo-le c (highest c (f ∷ fs)) (batch a s).files (omega (arith, later, top.0))
                (batch-UpTo a c s passed))
          | inr near ↦ inr (omega (arith, later, top.0, near))
        ],
      )

  step-Left :
      (a : Around) (m k : ℕ) (s : Store)
      → Answered a
      → Left m (suc k) s
      → Left m k (run_batch cfg a s)
  step-Left a m k s h (c, e, u, l) =
      rw (run_batch-Answered a s h)
        (batch-Left a m k s (get_pending_files true c (limit_or size 100) s.files) c e refl u l)

  -- The checkpoint has passed every record.
  abbrev pub IsDrained : Store → Type 0
  IsDrained s = (c : ℕ) × (get_last_bin_id true server_name s.logs ≡ some c) × UpTo c s.files

  drained : (m : ℕ) (s : Store) → Left m 0 s → IsDrained s
  drained m s (c, e, u, inl p) = (c, e, p)
  drained m s (c, e, u, inr h) = (c, e, UpTo-le m c s.files (omega arith) u)

  work-Left :
      (m : ℕ) (es : List (Event Around)) (s : Store)
      → All IsAnswered es
      → Left m (length es) s
      → Left m 0 (work (run_batch cfg) es s)
  unfolding work
  work-Left m [] s h l = l
  work-Left m (cancelled ∷ es) s h l = absurd h.0
  work-Left m (stopped ∷ es) s h l = absurd h.0
  work-Left m (ticked a ∷ es) s (h, hs) l =
      work-Left m es (run_batch cfg a s) hs (step-Left a m (length es) s h l)

  -- The loop of the migration comes to an end of the table: if it is switched on, runs until it is
  -- stopped, and its queries are answered, then once it has run as many batches as identifiers lie
  -- between the checkpoint and the greatest one, the checkpoint is at or past every record, whatever
  -- calls of the disk and updates of rows failed and in whatever order the workers ended.
  pub start_background_migration_drains :
      (first : Around) (es : List (Event Around)) (c m : ℕ) (s : Store)
      → cfg.enabled ≡ true
      → Answered first
      → All IsAnswered es
      → get_last_bin_id true server_name s.logs ≡ some c
      → UpTo m s.files
      → m ≤ c + suc (length es)
      → IsDrained (start_background_migration cfg first es s)
  unfolding start_background_migration start_background
  start_background_migration_drains first es c m s on a hs e u h = rw on (
      drained m (work (run_batch cfg) es (run_batch cfg first s)) (
        work-Left m es (run_batch cfg first s) hs
          (step-Left first m (length es) s a (c, e, u, inr h))))
