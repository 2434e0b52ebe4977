-- ===== src/Repository/Dashboard.antt =====
-- internal/repository/dashboard_repo.go: the statistics of DashboardRepository, which no other part
-- of the program calls. GetDuplicateStats stands in Repository/Duplicates.
pub mod Progress
use omni_blob.Base.{
  ℕ, zero, suc, ◌+◌, ◌-◌, ◌*◌, ◌/◌, ◌%◌, ◌^◌, ◌≤◌, ◌<◌, String, ◌≡◌, refl, sym, ap, ◌∙◌, fun_ext,
  ◌≢◌, ◌↔◌, ◌⊎◌, inl, inr, Bool, true, false, ◌&&◌, ◌||◌, not, Option, none, some, List, [], ◌∷◌,
  ◌++◌, map, reverse, arith, ltb, leb, ◌==◌, if◌then◌else◌, ltb→lt, lt→ltb, leb→le, ==_iff, tests,
  Bool-cases, Option-cases, length, length-append, take, keep_if, any_of, all_of, head_of, All, Any,
  length-keep_if-le, keep_if-append, All-append, Text, codes, text_eq, text_eq_iff, text_eq_refl,
  text_eq-common, is_empty, or_else, has_prefix, has_prefix-append, has_prefix-common,
  has_prefix_self, has_prefix-map, trim_prefix, has_byte, contains, has_byte-append, drop_while,
  trim_if, is_space, trim_space, lower_byte, to_lower, cons_head, split_on, first_piece, cons_cut,
  cut, digits_fuel, decimal, decimal-digits, decimal-given, contains_text, Assoc, lookup, insert,
  delete, lookup-insert, lookup-delete, delete-insert, is_digit, digits_value, digits_value-decimal,
  ℤ, negate, is_positive, magnitude, signed_within, atoi, pos, negsuc,
}
use omni_blob.Entity.{BinaryFile, LogFileRsync}
use omni_blob.Storage.Layout.{Calendar}
use omni_blob.Repository.BinaryFiles.{sum_size, Files}
use omni_blob.Repository.Statistics.{
  LargeFile, JobHistory, module_key, same_month, month_le, last_of, same_key, scan_extensions,
  order_by_size, error_logs,
}
use omni_blob.Repository.Statistics.Grouping.{Group, group_rows, order_groups, larger_first}

-- The percentage is a floating-point number, whose arithmetic is a parameter.
pub record SummaryStats : Type 0 where
  pub total_data_bytes : ℕ
  pub total_files_migrated : ℕ
  pub total_pending_files : ℕ
  pub overall_progress_percent : Text
  pub stale_files_over_1_year : ℕ

abbrev pub is_pending : BinaryFile → Bool
is_pending f = not (text_eq f.flag (codes "M"))

-- GetSummaryStats; `year_ago` is NOW() - INTERVAL '1 YEAR'. The files that are not pending are
-- subtracted from all.
unfoldable pub get_summary_stats : (ℕ → ℕ → Text) → Text → ℕ → Bool → Files → Option SummaryStats
get_summary_stats percent hundred year_ago up t =
    let total = length t in
    let pending = length (keep_if is_pending t) in
    let migrated = total - pending in
    if up
    then some (record {
      total_data_bytes = sum_size t;
      total_files_migrated = migrated;
      total_pending_files = pending;
      overall_progress_percent =
          if ltb 0 (migrated + pending) then percent migrated (migrated + pending) else hundred;
      stale_files_over_1_year = length (keep_if (λ f. ltb f.create_date year_ago) t);
    })
    else none

-- LIKE '%._%': a dot that is not the last character.
unfoldable pub has_inner_dot : Text → Bool
has_inner_dot [] = false
has_inner_dot (c ∷ s) = ((c == b'.') && not (is_empty s)) || has_inner_dot s

abbrev text_if : Text → Option Text
text_if [] = none
text_if (c ∷ s) = some (c ∷ s)

-- The extension as it is written, not in lower case.
unfoldable pub written_extension : Text → Option Text
written_extension name =
    if has_byte b'.' name then text_if (last_of [] (split_on b'.' name)) else none

unfoldable pub get_extension_stats : Bool → Files → Option (List (Group Text))
unfolding has_inner_dot written_extension
get_extension_stats up t =
    if up
    then scan_extensions (
        take 10 (
          order_groups larger_first (
            group_rows same_key (λ f. written_extension f.file_name)
              (keep_if (λ f. has_inner_dot f.file_name) t))))
    else none

unfoldable pub get_module_stats : Bool → Files → Option (List (Group Text))
get_module_stats up t =
    if up then some (order_groups larger_first (group_rows text_eq module_key t)) else none

abbrev or_blank : Option Text → Text
or_blank none = []
or_blank (some t) = t

unfoldable pub get_top_large_files : Bool → Files → Option (List LargeFile)
unfolding written_extension
get_top_large_files up t =
    if up
    then some (
        map
          (λ f. record {
            bin_id = f.bin_id;
            file_name = f.file_name;
            path = f.path;
            size_bytes = f.size;
            extension = or_blank (written_extension f.file_name);
          })
          (take 100 (order_by_size t)))
    else none

unfoldable pub get_yearly_stats : Calendar → Bool → Files → Option (List (Group ℕ))
get_yearly_stats cal up t =
    if up
    then some (
        order_groups (λ a b. leb a.key b.key)
          (group_rows (λ x y. x == y) (λ f. cal.year f.create_date) t))
    else none

unfoldable pub get_monthly_stats : Calendar → Bool → Files → Option (List (Group (ℕ × ℕ)))
get_monthly_stats cal up t =
    if up
    then some (
        order_groups (λ a b. month_le a.key b.key)
          (group_rows same_month (λ f. (cal.year f.create_date, cal.month f.create_date)) t))
    else none

-- The text of error_logs is the status. The columns id and date of a job are not modelled.
unfoldable pub get_job_history : Bool → Bool → List LogFileRsync → List JobHistory × ℕ
get_job_history count_up rows_up ls =
    if count_up && rows_up
    then (
      map
          (λ l. record {
            name = codes "Background Migration";
            kind = codes "Migrasi";
            volume_bytes = 0;
            duration = codes "< 1m";
            status = error_logs l;
          })
          (take 20 ls),
      length ls,
    )
    else ([], 0)
