-- ===== src/Repository/Dashboard/Progress.antt =====
-- internal/repository/dashboard_repo.go: the numbers of GetSummaryStats and of GetMigrationStats.
use omni_blob.Base.{
  ℕ, ◌+◌, ◌≤◌, ◌≡◌, refl, Bool, true, Option, none, some, [], ◌∷◌, arith, length, keep_if, Text,
}
use omni_blob.Entity.{BinaryFile, MigrationStats}
use omni_blob.Repository.BinaryFiles.{Files, sum_size, get_migration_stats, is_migrated}
use omni_blob.Repository.Dashboard.{SummaryStats, is_pending, get_summary_stats}

split-is_pending :
    (t : Files) → length (keep_if is_migrated t) + length (keep_if is_pending t) ≡ length t
split-is_pending [] = refl
split-is_pending (f ∷ t) = ground (arith, split-is_pending t)

abbrev pub CountsAs : MigrationStats → Option SummaryStats → Type 0
CountsAs m none = ⊥
CountsAs m (some s) =
    (s.total_files_migrated ≡ m.migrated_files)
    × (s.total_files_migrated + s.total_pending_files ≡ m.total_files)
    × (m.total_migrated_bytes ≤ s.total_data_bytes)

bytes-keep_if : (p : BinaryFile → Bool) (t : Files) → sum_size (keep_if p t) ≤ sum_size t
unfolding sum_size
bytes-keep_if p [] = omega arith
bytes-keep_if p (f ∷ t) = ground (arith, bytes-keep_if p t)

-- Both repositories count the same files as migrated and the same in all; what the unused one calls
-- the migrated bytes are the bytes of all files, so never less.
pub get_summary_stats-CountsAs :
    (percent : ℕ → ℕ → Text) (hundred : Text) (year_ago : ℕ) (t : Files)
    → CountsAs (get_migration_stats t) (get_summary_stats percent hundred year_ago true t)
unfolding get_summary_stats get_migration_stats
get_summary_stats-CountsAs percent hundred year_ago t = (
  omega (arith, split-is_pending t),
  omega (arith, split-is_pending t),
  bytes-keep_if is_migrated t,
)
