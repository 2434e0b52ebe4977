-- ===== src/Service/Dashboard/Summary.antt =====
-- internal/service/dashboard_service.go: what the numbers of the dashboard are of the table.
use omni_blob.Base.{
  ◌+◌, ◌≤◌, ◌≡◌, refl, ap, Bool, true, false, not, none, List, [], ◌∷◌, ◌++◌, arith, length,
  keep_if, Text,
}
use omni_blob.Entity.{BinaryFile, LogFileRsync}
use omni_blob.Repository.BinaryFiles.{Files, get_migration_stats, is_migrated}
use omni_blob.Repository.Statistics.{get_extension_stats, get_job_history}
use omni_blob.Repository.Statistics.Extensions.{groups_of, get_extension_stats-fails}
use omni_blob.Service.Dashboard.{
  Machine, Answers, DashboardSummary, DashboardHandler, DashboardReply, internal_error, answered,
  reply_of, get_summary, get_executive_summary, get_analytics, get_storage_analytics,
}

split-keep_if :
    (p : BinaryFile → Bool) (t : Files)
    → length (keep_if p t) + length (keep_if (λ f. not (p f)) t) ≡ length t
split-keep_if p [] = refl
split-keep_if p (f ∷ t) = ground (arith, split-keep_if p t)

-- What the summary says of the table.
abbrev pub Summarises :
    DashboardHandler → Files → List LogFileRsync → DashboardReply DashboardSummary → Type 0
Summarises h t ls internal_error = ⊥
Summarises h t ls (answered s) =
    (s.total_files_migrated ≡ length (keep_if is_migrated t))
    × (s.total_pending_files ≡ length (keep_if (λ f. not (is_migrated f)) t))
    × (s.migration_enabled ≡ h.migration_enabled)
    × (s.clients ≡ h.clients)
    × (s.license_tier ≡ h.license_tier)
    × (s.total_lifetime_migrations ≡ length ls)

jobs-length :
    (count_up rows_up : Bool) (ls : List LogFileRsync)
    → count_up ≡ true
    → rows_up ≡ true
    → (get_job_history count_up rows_up ls).1 ≡ length ls
unfolding get_job_history
jobs-length count_up rows_up ls y z = ground (arith, y, z)

-- Where the queries are answered the summary counts as migrated exactly the records with the flag M
-- and as pending exactly the others, counts every batch, and gives the settings of the program.
pub get_summary-Summarises :
    (m : Machine) (a : Answers) (h : DashboardHandler) (t : Files) (ls : List LogFileRsync)
    → a.stats_up ≡ true
    → a.count_up ≡ true
    → a.history_up ≡ true
    → Summarises h t ls (get_summary m a h t ls)
unfolding get_summary get_executive_summary get_migration_stats
get_summary-Summarises m a h t ls x y z =
    let jobs = jobs-length a.count_up a.history_up ls y z in
    rw x (refl, omega (arith, split-keep_if is_migrated t), refl, refl, refl, jobs)

no_extensions :
    (up : Bool) (t : Files) → get_extension_stats true t ≡ none → get_extension_stats up t ≡ none
unfolding get_extension_stats
no_extensions true t e = e
no_extensions false t e = refl

analytics-none :
    (m : Machine) (a : Answers) (t : Files)
    → get_extension_stats a.extensions_up t ≡ none
    → get_storage_analytics m a t ≡ none
unfolding get_storage_analytics
analytics-none m a t e = ground (arith, e)

-- One record whose file name ends in a dot makes the whole page of analytics an internal error, where
-- the records have at most 50 extensions, whatever else is answered: its extension is NULL, which
-- the statistics of extensions scan into a string.
pub get_analytics-fails :
    (m : Machine) (a : Answers) (u v : Files) (f : BinaryFile) (s : Text)
    → f.file_name ≡ s ++ b'.' ∷ []
    → length (groups_of (u ++ f ∷ v)) ≤ 50
    → get_analytics m a (u ++ f ∷ v) ≡ internal_error
unfolding get_analytics
get_analytics-fails m a u v f s e l = ap reply_of (
    analytics-none m a (u ++ f ∷ v)
      (no_extensions a.extensions_up (u ++ f ∷ v) (get_extension_stats-fails u v f s e l)))
