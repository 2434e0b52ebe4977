-- ===== src/Repository/Statistics.antt =====
-- internal/repository/binary_file_repository.go: the statistics of the dashboard. `up` says whether
-- the database answers, and `none` is an error. Text functions of SQL are those of ASCII; the year
-- and the month of a date, and the collation, are parameters.
pub mod Grouping
pub mod Totals
pub mod Extensions
use omni_blob.Base.{
  ℕ, zero, suc, ◌+◌, ◌-◌, ◌*◌, ◌/◌, ◌%◌, ◌^◌, ◌≤◌, ◌<◌, String, ◌≡◌, refl, sym, ap, ◌∙◌, fun_ext,
  ◌≢◌, ◌↔◌, ◌⊎◌, inl, inr, Bool, true, false, ◌&&◌, ◌||◌, not, Option, none, some, List, [], ◌∷◌,
  ◌++◌, map, reverse, arith, ltb, leb, ◌==◌, if◌then◌else◌, ltb→lt, lt→ltb, leb→le, ==_iff, tests,
  Bool-cases, Option-cases, length, length-append, take, keep_if, any_of, all_of, head_of, All, Any,
  length-keep_if-le, keep_if-append, All-append, Text, codes, text_eq, text_eq_iff, text_eq_refl,
  text_eq-common, is_empty, or_else, has_prefix, has_prefix-append, has_prefix-common,
  has_prefix_self, has_prefix-map, trim_prefix, has_byte, contains, has_byte-append, drop_while,
  trim_if, is_space, trim_space, lower_byte, to_lower, cons_head, split_on, first_piece, cons_cut,
  cut, digits_fuel, decimal, decimal-digits, decimal-given, contains_text, Assoc, lookup, insert,
  delete, lookup-insert, lookup-delete, delete-insert, is_digit, digits_value, digits_value-decimal,
  ℤ, negate, is_positive, magnitude, signed_within, atoi, pos, negsuc,
}
use omni_blob.Entity.{BinaryFile, LogFileRsync}
use omni_blob.Storage.Layout.{Calendar}
use omni_blob.Repository.BinaryFiles.{Files, limit_or}
use omni_blob.Repository.Statistics.Grouping.{
  Group, group_rows, add_row, order_groups, insert_group, larger_first,
}

-- COALESCE(NULLIF(module, ''), 'unknown')
abbrev pub module_key : BinaryFile → Text
module_key f = or_else f.module_name (codes "unknown")

unfoldable pub get_module_stats : Bool → Files → Option (List (Group Text))
get_module_stats up t =
    if up then some (order_groups larger_first (group_rows text_eq module_key t)) else none

unfoldable pub get_yearly_stats : Calendar → Bool → Files → Option (List (Group ℕ))
get_yearly_stats cal up t =
    if up
    then some (
        order_groups (λ a b. leb a.key b.key)
          (group_rows (λ x y. x == y) (λ f. cal.year f.create_date) t))
    else none

abbrev pub same_month : (ℕ × ℕ) → (ℕ × ℕ) → Bool
same_month (y, m) (z, n) = (y == z) && (m == n)

abbrev pub month_le : (ℕ × ℕ) → (ℕ × ℕ) → Bool
month_le (y, m) (z, n) = ltb y z || ((y == z) && leb m n)

unfoldable pub get_monthly_stats : Calendar → Bool → Files → Option (List (Group (ℕ × ℕ)))
get_monthly_stats cal up t =
    if up
    then some (
        order_groups (λ a b. month_le a.key b.key)
          (group_rows same_month (λ f. (cal.year f.create_date, cal.month f.create_date)) t))
    else none

-- SUBSTRING(file_name FROM '\.([^\.]+)$'): what follows the last dot, if anything does.
abbrev pub last_of : Text → List Text → Text
last_of d [] = d
last_of d (w ∷ ws) = last_of w ws

abbrev pub given : Text → Option Text
given [] = none
given (c ∷ s) = some (to_lower (c ∷ s))

unfoldable pub extension_of : Text → Option Text
extension_of name = if has_byte b'.' name then given (last_of [] (split_on b'.' name)) else none

abbrev pub same_key : Option Text → Option Text → Bool
same_key none none = true
same_key none (some y) = false
same_key (some x) none = false
same_key (some x) (some y) = text_eq x y

-- Scanning a row whose extension is NULL into a string is an error.
unfoldable pub scan_extensions : List (Group (Option Text)) → Option (List (Group Text))
scan_extensions [] = some []
scan_extensions (g ∷ gs) =
    let rest = scan_extensions gs in
    elim g.key [
      | none ↦ none
      | some k ↦ elim rest [
        | none ↦ none
        | some hs ↦ some ((record { key = k; count = g.count; size_bytes = g.size_bytes }) ∷ hs)
      ]
    ]

abbrev pub extension_groups : Files → List (Group (Option Text))
extension_groups t = take 50 (
    order_groups larger_first (
      group_rows same_key (λ f. extension_of f.file_name)
        (keep_if (λ f. has_byte b'.' f.file_name) t)))

unfoldable pub get_extension_stats : Bool → Files → Option (List (Group Text))
unfolding extension_of scan_extensions
get_extension_stats up t = if up then scan_extensions (extension_groups t) else none

pub record LargeFile : Type 0 where
  pub bin_id : ℕ
  pub file_name : Text
  pub path : Text
  pub size_bytes : ℕ
  pub extension : Text

unfoldable pub insert_by_size : BinaryFile → Files → Files
insert_by_size f [] = f ∷ []
insert_by_size f (g ∷ gs) = if leb g.size f.size then f ∷ g ∷ gs else g ∷ insert_by_size f gs

unfoldable pub order_by_size : Files → Files
unfolding insert_by_size
order_by_size [] = []
order_by_size (f ∷ fs) = insert_by_size f (order_by_size fs)

abbrev or_blank : Option Text → Text
or_blank none = []
or_blank (some t) = t

unfoldable pub large_file : BinaryFile → LargeFile
large_file f = record {
  bin_id = f.bin_id;
  file_name = f.file_name;
  path = f.path;
  size_bytes = f.size;
  extension = or_blank (extension_of f.file_name);
}

unfoldable pub get_top_large_files : Bool → ℕ → Files → Option (List LargeFile)
unfolding order_by_size large_file
get_top_large_files up limit t =
    if up then some (map large_file (take (limit_or limit 100) (order_by_size t))) else none

pub record JobHistory : Type 0 where
  pub name : Text
  pub kind : Text
  pub volume_bytes : ℕ
  pub duration : Text
  pub status : Text

-- The text that a migration's batch writes into error_logs.
unfoldable pub error_logs : LogFileRsync → Text
error_logs l =
    codes "Batch completed. Migrated: "
    ++ (decimal l.migrated ++ (codes ", Errors/Skipped: " ++ decimal l.errors))

-- The columns id and date of a job are not modelled.
unfoldable pub job_of : LogFileRsync → JobHistory
unfolding error_logs
job_of l = record {
  name = codes "Background Migration";
  kind = codes "Migrasi";
  volume_bytes = 0;
  duration = codes "< 1m";
  status = if is_empty (error_logs l) then codes "Success" else codes "Failed";
}

-- The logs are the newest first. Where a query fails there is no history, and no error.
unfoldable pub get_job_history : Bool → Bool → List LogFileRsync → List JobHistory × ℕ
unfolding job_of
get_job_history count_up rows_up ls =
    if count_up && rows_up then (map job_of (take 20 ls), length ls) else ([], 0)
