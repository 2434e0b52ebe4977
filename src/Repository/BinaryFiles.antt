-- ===== src/Repository/BinaryFiles.antt =====
-- internal/repository/binary_file_repository.go: the table binary_file. The column bin_id is a
-- BIGSERIAL, so the identifiers are natural numbers.
pub mod Ordered
pub mod Pages
pub mod Rows
use omni_blob.Base.{
  ℕ, zero, suc, ◌+◌, ◌-◌, ◌*◌, ◌/◌, ◌%◌, ◌^◌, ◌≤◌, ◌<◌, String, ◌≡◌, refl, sym, ap, ◌∙◌, fun_ext,
  ◌≢◌, ◌↔◌, ◌⊎◌, inl, inr, Bool, true, false, ◌&&◌, ◌||◌, not, Option, none, some, List, [], ◌∷◌,
  ◌++◌, map, reverse, arith, ltb, leb, ◌==◌, if◌then◌else◌, ltb→lt, lt→ltb, leb→le, ==_iff, tests,
  Bool-cases, Option-cases, length, length-append, take, keep_if, any_of, all_of, head_of, All, Any,
  length-keep_if-le, keep_if-append, All-append, Text, codes, text_eq, text_eq_iff, text_eq_refl,
  text_eq-common, is_empty, or_else, has_prefix, has_prefix-append, has_prefix-common,
  has_prefix_self, has_prefix-map, trim_prefix, has_byte, contains, has_byte-append, drop_while,
  trim_if, is_space, trim_space, lower_byte, to_lower, cons_head, split_on, first_piece,
  digits_fuel, decimal, decimal-digits, contains_text, Assoc, lookup, insert, delete, lookup-insert,
  lookup-delete, is_digit, digits_value, digits_value-decimal,
}
use omni_blob.Entity.{BinaryFile, MigrationStats}
use omni_blob.FilePath.{slash}

abbrev pub Files : Type 0
Files = List BinaryFile

-- ORDER BY bin_id ASC
unfoldable pub insert_by_id : BinaryFile → Files → Files
insert_by_id f [] = f ∷ []
insert_by_id f (g ∷ gs) = if leb f.bin_id g.bin_id then f ∷ g ∷ gs else g ∷ insert_by_id f gs

unfoldable pub order_by_id : Files → Files
unfolding insert_by_id
order_by_id [] = []
order_by_id (f ∷ fs) = insert_by_id f (order_by_id fs)

-- `none` for an error, which having no row is too.
unfoldable pub get_by_id : Bool → ℕ → Files → Option BinaryFile
get_by_id up n t = if up then head_of (keep_if (λ f. f.bin_id == n) t) else none

unfoldable pub get_by_file_name : Bool → Text → Files → Option BinaryFile
unfolding order_by_id
get_by_file_name up name t =
    if up then head_of (reverse (order_by_id (keep_if (λ f. text_eq f.file_name name) t))) else none

unfoldable pub get_by_referensi_id : Bool → Text → Text → Files → Option Files
unfolding order_by_id
get_by_referensi_id up ref m t =
    if up
    then some (
        reverse (
          order_by_id (
            keep_if (λ f. text_eq f.referensi_id ref && (is_empty m || text_eq f.module_name m))
              t)))
    else none

abbrev pub limit_or : ℕ → ℕ → ℕ
limit_or n d = if ltb 0 n then n else d

unfoldable pub get_pending_files : Bool → ℕ → ℕ → Files → Option Files
get_pending_files up last limit t =
    if up
    then some (take (limit_or limit 100) (order_by_id (keep_if (λ f. ltb last f.bin_id) t)))
    else none

-- COALESCE(MAX(bin_id), 0)
unfoldable pub max_id : Files → ℕ
max_id [] = 0
max_id (f ∷ fs) = let m = max_id fs in if ltb m f.bin_id then f.bin_id else m

-- What Insert makes of the record before it is written: `next_up` says whether the query for the next
-- identifier is answered, else the clock's seconds are taken.
unfoldable pub prepare : Bool → ℕ → Files → BinaryFile → BinaryFile
unfolding max_id
prepare next_up now t f = record f {
  bin_id = if ltb 0 f.bin_id then f.bin_id else if next_up then max_id t + 1 else now / 1000000000;
  path = trim_prefix f.path (slash ∷ []);
  flag = or_else f.flag (codes "1");
  create_date = if ltb 0 f.create_date then f.create_date else now;
}

-- The primary key refuses an identifier that is taken.
unfoldable pub insert_row : Bool → BinaryFile → Files → Files × Option BinaryFile
insert_row up g t =
    if not up || any_of (λ x. x.bin_id == g.bin_id) t then (t, none) else (t ++ g ∷ [], some g)

unfoldable pub insert_file : Bool → Bool → ℕ → BinaryFile → Files → Files × Option BinaryFile
unfolding prepare insert_row
insert_file next_up up now f t = insert_row up (prepare next_up now t f) t

unfoldable pub delete_row : Bool → ℕ → Files → Files × Bool
delete_row up n t = if up then (keep_if (λ f. not (f.bin_id == n)) t, true) else (t, false)

abbrev pub set_status : Text → Text → ℕ → Text → BinaryFile → BinaryFile
set_status path checksum size flag f = record f {
  path = path;
  checksum = checksum;
  size = size;
  flag = flag;
}

unfoldable pub update_path_and_status : ℕ → Text → Text → ℕ → Text → Files → Files
update_path_and_status n path checksum size flag t =
    map (λ f. if f.bin_id == n then set_status path checksum size flag f else f) t

unfoldable pub exists_by_path : Bool → Text → Files → Option Bool
exists_by_path up path t = if up then some (any_of (λ f. text_eq f.path path) t) else none

abbrev pub is_migrated : BinaryFile → Bool
is_migrated f = text_eq f.flag (codes "M")

unfoldable pub sum_size : Files → ℕ
sum_size [] = 0
sum_size (f ∷ fs) = f.size + sum_size fs

unfoldable pub get_migration_stats : Files → MigrationStats
unfolding sum_size
get_migration_stats t = record {
  total_files = length t;
  migrated_files = length (keep_if is_migrated t);
  total_migrated_bytes = sum_size (keep_if is_migrated t);
}
