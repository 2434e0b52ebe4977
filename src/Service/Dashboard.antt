-- ===== src/Service/Dashboard.antt =====
-- internal/service/dashboard_service.go and internal/api/dashboard_handler.go. Disk usage and the
-- floating-point percentage of two numbers are parameters.
pub mod Summary
use omni_blob.Base.{
  ℕ, zero, suc, ◌+◌, ◌-◌, ◌*◌, ◌/◌, ◌%◌, ◌^◌, ◌≤◌, ◌<◌, String, ◌≡◌, refl, sym, ap, ◌∙◌, fun_ext,
  ◌≢◌, ◌↔◌, ◌⊎◌, inl, inr, Bool, true, false, ◌&&◌, ◌||◌, not, Option, none, some, List, [], ◌∷◌,
  ◌++◌, map, reverse, arith, ltb, leb, ◌==◌, if◌then◌else◌, ltb→lt, lt→ltb, leb→le, ==_iff, tests,
  Bool-cases, Option-cases, length, length-append, take, keep_if, any_of, all_of, head_of, All, Any,
  length-keep_if-le, keep_if-append, All-append, Text, codes, text_eq, text_eq_iff, text_eq_refl,
  text_eq-common, is_empty, or_else, has_prefix, has_prefix-append, has_prefix-common,
  has_prefix_self, has_prefix-map, trim_prefix, has_byte, contains, has_byte-append, drop_while,
  trim_if, is_space, trim_space, lower_byte, to_lower, cons_head, split_on, first_piece, cons_cut,
  cut, digits_fuel, decimal, decimal-digits, decimal-given, contains_text, Assoc, lookup, insert,
  delete, lookup-insert, lookup-delete, delete-insert, is_digit, digits_value, digits_value-decimal,
  ℤ, negate, is_positive, magnitude, signed_within, atoi, pos, negsuc,
}
use omni_blob.Entity.{BinaryFile, LogFileRsync, MigrationStats}
use omni_blob.Storage.Layout.{Calendar}
use omni_blob.Repository.BinaryFiles.{Files, get_migration_stats}
use omni_blob.Repository.Statistics.{
  LargeFile, JobHistory, get_extension_stats, get_top_large_files, get_module_stats,
  get_yearly_stats, get_monthly_stats, get_job_history,
}
use omni_blob.Repository.Statistics.Grouping.{Group}
use omni_blob.Repository.Duplicates.{DataQualityStats, get_data_quality_stats}

-- What gopsutil tells of a path: free, total and used bytes, and the percentage.
pub record DiskUsage : Type 0 where
  pub free : ℕ
  pub total : ℕ
  pub used : ℕ
  pub used_percent : Text

pub record Machine : Type 0 where
  pub disk_usage : Text → Option DiskUsage
  pub percent : ℕ → ℕ → Text
  pub zero_percent : Text
  pub calendar : Calendar
  pub collation : Text → Text → Bool

-- Which queries are answered.
pub record Answers : Type 0 where
  pub stats_up : Bool
  pub count_up : Bool
  pub history_up : Bool
  pub extensions_up : Bool
  pub largest_up : Bool
  pub modules_up : Bool
  pub years_up : Bool
  pub months_up : Bool
  pub groups_up : Bool
  pub totals_up : Bool

pub record DashboardSummary : Type 0 where
  pub total_data_migrated_bytes : ℕ
  pub total_files_migrated : ℕ
  pub total_pending_files : ℕ
  pub overall_progress_percent : Text
  pub stale_files : ℕ
  pub migration_enabled : Bool
  pub disk : DiskUsage
  pub root_path : Text
  pub legacy_path : Text
  pub sharding_type : Text
  pub clients : List Text
  pub license_tier : Text
  pub total_lifetime_migrations : ℕ
  pub migration_history : List JobHistory

-- getDiskSpaceStats
unfoldable pub get_disk_space_stats : Machine → Text → DiskUsage
get_disk_space_stats m path = elim (m.disk_usage (or_else path (codes "/"))) [
  | none ↦ record { free = 0; total = 0; used = 0; used_percent = m.zero_percent }
  | some u ↦ u
]

abbrev progress : Machine → MigrationStats → Text
progress m s =
    if ltb 0 s.total_files then m.percent s.migrated_files s.total_files else m.zero_percent

-- GetExecutiveSummary. The query of the stale files leaves their number at zero.
unfoldable pub get_executive_summary :
    Machine
    → Answers
    → Text
    → Text
    → List Text
    → Files
    → List LogFileRsync
    → Option DashboardSummary
unfolding get_disk_space_stats
get_executive_summary m a tier dest clients t ls =
    let s = get_migration_stats t in
    let jobs = get_job_history a.count_up a.history_up ls in
    if a.stats_up
    then some (record {
      total_data_migrated_bytes = s.total_migrated_bytes;
      total_files_migrated = s.migrated_files;
      total_pending_files = s.total_files - s.migrated_files;
      overall_progress_percent = progress m s;
      stale_files = 0;
      migration_enabled = true;
      disk = get_disk_space_stats m dest;
      root_path = dest;
      legacy_path = codes "/legacy";
      sharding_type = codes "date-based";
      clients = clients;
      license_tier = tier;
      total_lifetime_migrations = jobs.1;
      migration_history = jobs.0;
    })
    else none

pub record StorageAnalytics : Type 0 where
  pub extension_stats : List (Group Text)
  pub top_large_files : List LargeFile
  pub module_stats : List (Group Text)
  pub yearly_stats : List (Group ℕ)
  pub monthly_stats : List (Group (ℕ × ℕ))

-- GetStorageAnalytics: the first query that fails ends it.
unfoldable pub get_storage_analytics : Machine → Answers → Files → Option StorageAnalytics
get_storage_analytics m a t = elim (get_extension_stats a.extensions_up t) [
  | none ↦ none
  | some es ↦ elim (get_top_large_files a.largest_up 100 t) [
    | none ↦ none
    | some fs ↦ elim (get_module_stats a.modules_up t) [
      | none ↦ none
      | some ms ↦ elim (get_yearly_stats m.calendar a.years_up t) [
        | none ↦ none
        | some ys ↦ elim (get_monthly_stats m.calendar a.months_up t) [
          | none ↦ none
          | some ns ↦ some (record {
            extension_stats = es;
            top_large_files = fs;
            module_stats = ms;
            yearly_stats = ys;
            monthly_stats = ns;
          })
        ]
      ]
    ]
  ]
]

-- What the dashboard's routes answer: 500, or 200 with the value.
pub data DashboardReply (A : Type 0) : Type 0 where
  internal_error : DashboardReply A
  answered : A → DashboardReply A

abbrev pub reply_of : {A : Type 0} → Option A → DashboardReply A
reply_of none = internal_error
reply_of (some x) = answered x

pub record DashboardHandler : Type 0 where
  pub root_path : Text
  pub clients : List Text
  pub migration_enabled : Bool
  pub license_tier : Text

abbrev pub with_migration : Bool → Option DashboardSummary → DashboardReply DashboardSummary
with_migration b none = internal_error
with_migration b (some s) = answered (record s { migration_enabled = b })

-- GetSummary, GetAnalytics and GetQuality
unfoldable pub get_summary :
    Machine
    → Answers
    → DashboardHandler
    → Files
    → List LogFileRsync
    → DashboardReply DashboardSummary
unfolding get_executive_summary
get_summary m a h t ls =
    with_migration h.migration_enabled
      (get_executive_summary m a h.license_tier (or_else h.root_path (codes "C:\\")) h.clients t ls)

unfoldable pub get_analytics : Machine → Answers → Files → DashboardReply StorageAnalytics
unfolding get_storage_analytics
get_analytics m a t = reply_of (get_storage_analytics m a t)

unfoldable pub get_quality : Machine → Answers → Files → DashboardReply DataQualityStats
get_quality m a t = reply_of (get_data_quality_stats m.collation a.groups_up a.totals_up t)
