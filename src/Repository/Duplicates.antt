-- ===== src/Repository/Duplicates.antt =====
-- internal/repository: records of one checksum, as GetDataQualityStats of binary_file_repository.go
-- and GetDuplicateStats of dashboard_repo.go count them. `le` is the collation's order of names.
pub mod Wasted
use omni_blob.Base.{
  ℕ, zero, suc, ◌+◌, ◌-◌, ◌*◌, ◌/◌, ◌%◌, ◌^◌, ◌≤◌, ◌<◌, String, ◌≡◌, refl, sym, ap, ◌∙◌, fun_ext,
  ◌≢◌, ◌↔◌, ◌⊎◌, inl, inr, Bool, true, false, ◌&&◌, ◌||◌, not, Option, none, some, List, [], ◌∷◌,
  ◌++◌, map, reverse, arith, ltb, leb, ◌==◌, if◌then◌else◌, ltb→lt, lt→ltb, leb→le, ==_iff, tests,
  Bool-cases, Option-cases, length, length-append, take, keep_if, any_of, all_of, head_of, All, Any,
  length-keep_if-le, keep_if-append, All-append, Text, codes, text_eq, text_eq_iff, text_eq_refl,
  text_eq-common, is_empty, or_else, has_prefix, has_prefix-append, has_prefix-common,
  has_prefix_self, has_prefix-map, trim_prefix, has_byte, contains, has_byte-append, drop_while,
  trim_if, is_space, trim_space, lower_byte, to_lower, cons_head, split_on, first_piece, cons_cut,
  cut, digits_fuel, decimal, decimal-digits, decimal-given, contains_text, Assoc, lookup, insert,
  delete, lookup-insert, lookup-delete, delete-insert, is_digit, digits_value, digits_value-decimal,
  ℤ, negate, is_positive, magnitude, signed_within, atoi, pos, negsuc,
}
use omni_blob.Entity.{BinaryFile}
use omni_blob.Repository.BinaryFiles.{Files}

-- GROUP BY checksum: COUNT(*), MAX(size) and MAX(file_name).
pub record DuplicateGroup : Type 0 where
  pub checksum : Text
  pub count : ℕ
  pub size_bytes : ℕ
  pub example_name : Text

-- (count - 1) * file_size
unfoldable pub wasted_bytes : DuplicateGroup → ℕ
wasted_bytes g = (g.count - 1) * g.size_bytes

abbrev pub larger : ℕ → ℕ → ℕ
larger a b = if ltb a b then b else a

abbrev pub later_name : (Text → Text → Bool) → Text → Text → Text
later_name le a b = if le a b then b else a

module _ (le : Text → Text → Bool) where
  unfoldable pub add_copy : BinaryFile → List DuplicateGroup → List DuplicateGroup
  add_copy f [] =
      (record { checksum = f.checksum; count = 1; size_bytes = f.size; example_name = f.file_name })
      ∷ []
  add_copy f (g ∷ gs) =
      if text_eq g.checksum f.checksum
      then (record g {
        count = g.count + 1;
        size_bytes = larger g.size_bytes f.size;
        example_name = later_name le g.example_name f.file_name;
      })
        ∷ gs
      else g ∷ add_copy f gs

  unfoldable pub group_copies : Files → List DuplicateGroup
  unfolding add_copy
  group_copies [] = []
  group_copies (f ∷ fs) = add_copy f (group_copies fs)

-- ORDER BY wasted_bytes DESC
unfoldable pub insert_wasted : DuplicateGroup → List DuplicateGroup → List DuplicateGroup
unfolding wasted_bytes
insert_wasted g [] = g ∷ []
insert_wasted g (h ∷ hs) =
    if leb (wasted_bytes h) (wasted_bytes g) then g ∷ h ∷ hs else h ∷ insert_wasted g hs

unfoldable pub order_wasted : List DuplicateGroup → List DuplicateGroup
unfolding insert_wasted
order_wasted [] = []
order_wasted (g ∷ gs) = insert_wasted g (order_wasted gs)

-- COALESCE(SUM(count - 1), 0) and COALESCE(SUM((count - 1) * file_size), 0)
unfoldable pub sum_duplicates : List DuplicateGroup → ℕ
sum_duplicates [] = 0
sum_duplicates (g ∷ gs) = (g.count - 1) + sum_duplicates gs

unfoldable pub sum_wasted : List DuplicateGroup → ℕ
unfolding wasted_bytes
sum_wasted [] = 0
sum_wasted (g ∷ gs) = wasted_bytes g + sum_wasted gs

pub record DataQualityStats : Type 0 where
  pub total_duplicate_files : ℕ
  pub total_wasted_bytes : ℕ
  pub duplicate_groups : List DuplicateGroup

abbrev pub is_copied : DuplicateGroup → Bool
is_copied g = ltb 1 g.count

-- The rows of the common table expression DuplicateHashes.
abbrev pub duplicate_hashes : (Text → Text → Bool) → Files → List DuplicateGroup
duplicate_hashes le t =
    keep_if is_copied (group_copies le (keep_if (λ f. not (is_empty f.checksum)) t))

-- Two queries: the hundred worst groups, and the totals of all groups.
unfoldable pub get_data_quality_stats :
    (Text → Text → Bool) → Bool → Bool → Files → Option DataQualityStats
unfolding group_copies order_wasted sum_duplicates sum_wasted
get_data_quality_stats le groups_up totals_up t =
    if groups_up && totals_up
    then some (record {
      total_duplicate_files = sum_duplicates (duplicate_hashes le t);
      total_wasted_bytes = sum_wasted (duplicate_hashes le t);
      duplicate_groups = take 100 (order_wasted (duplicate_hashes le t));
    })
    else none

abbrev pub sized_hashes : (Text → Text → Bool) → Files → List DuplicateGroup
sized_hashes le t =
    keep_if is_copied (group_copies le (keep_if (λ f. not (is_empty f.checksum) && ltb 0 f.size) t))

-- dashboard_repo.go: one query, whose rows are added up.
unfoldable pub get_duplicate_stats : (Text → Text → Bool) → Bool → Files → Option DataQualityStats
unfolding group_copies order_wasted sum_duplicates sum_wasted
get_duplicate_stats le up t =
    let groups = take 50 (order_wasted (sized_hashes le t)) in
    if up
    then some (record {
      total_duplicate_files = sum_duplicates groups;
      total_wasted_bytes = sum_wasted groups;
      duplicate_groups = groups;
    })
    else none
