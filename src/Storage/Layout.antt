-- ===== src/Storage/Layout.antt =====
-- internal/storage/storage.go, GenerateStoragePath and GenerateShardedPath: where a file belongs by
-- its name. The year and the month of a time depend on the time zone and are a parameter.
use omni_blob.Base.{
  ℕ, ◌+◌, ◌/◌, ◌%◌, Bool, ◌&&◌, ◌||◌, not, [], ◌∷◌, ◌++◌, ltb, leb, ◌==◌, if◌then◌else◌, Text,
  codes, text_eq, is_empty, or_else, trim_prefix, trim_if, trim_space, to_lower, decimal, is_digit,
}
use omni_blob.FilePath.{slash, join}

pub record Calendar : Type 0 where
  pub year : ℕ → ℕ
  pub month : ℕ → ℕ

abbrev is_alnum : ℕ → Bool
is_alnum c = (leb b'a' c && leb c b'z') || (leb b'A' c && leb c b'Z') || is_digit c

-- The bytes that safeFilenameRegex and safePathRegex leave.
abbrev pub is_safe : ℕ → Bool
is_safe c = is_alnum c || (c == b'.') || (c == b'_') || (c == b'-')

abbrev pub is_safe_path : ℕ → Bool
is_safe_path c = is_safe c || (c == slash)

-- A byte inside a character of UTF-8, after its first.
abbrev is_continuation : ℕ → Bool
is_continuation c = leb 128 c && leb c 191

-- ReplaceAllString: each character that is not safe gives one underscore. Texts are valid UTF-8.
unfoldable pub replace_unsafe : (ℕ → Bool) → Text → Text
replace_unsafe safe [] = []
replace_unsafe safe (c ∷ s) =
    let rest = replace_unsafe safe s in
    if is_continuation c then rest else (if safe c then c else b'_') ∷ rest

unfoldable pub clean_file_name : Text → Text
unfolding replace_unsafe
clean_file_name filename = or_else (replace_unsafe is_safe filename) (codes "file")

unfoldable pub clean_ref : Text → Text
unfolding replace_unsafe
clean_ref ref = replace_unsafe is_safe_path ref

abbrev pub default_bucket : Text → Text
default_bucket bucket =
    if is_empty bucket || text_eq bucket (codes "files") then codes "uploads" else bucket

abbrev pub clean_module : Text → Text
clean_module m = to_lower (trim_space (or_else m (codes "general")))

abbrev pub clean_directory : Text → Text
clean_directory directory = trim_prefix (trim_if (λ c. c == slash) directory) (codes "uploads/")

unfoldable pub generate_storage_path : Text → Text → Text → Text → Text → Text
generate_storage_path bucket module_name directory ref filename =
    let m = clean_module module_name in
    let b = if text_eq (default_bucket bucket) m then [] else default_bucket bucket in
    let name = clean_file_name filename in
    if not (is_empty directory)
    then join (b ∷ clean_directory directory ∷ name ∷ [])
    else if not (is_empty ref)
    then join (b ∷ m ∷ clean_ref ref ∷ name ∷ [])
    else join (b ∷ m ∷ name ∷ [])

-- time.Format with "2006" and "01".
abbrev pub two_digits : ℕ → Text
two_digits n = (48 + n / 10 % 10) ∷ (48 + n % 10) ∷ []

abbrev pub four_digits : ℕ → Text
four_digits n = (48 + n / 1000 % 10) ∷ (48 + n / 100 % 10) ∷ two_digits n

abbrev pub prefixed_name : ℕ → Text → Text
prefixed_name n filename = decimal n ++ (b'_' ∷ clean_file_name filename)

-- `now` is the clock's reading, in nanoseconds; the zero time is 0.
unfoldable pub generate_sharded_path : Calendar → ℕ → Text → Text → Text → ℕ → Text → ℕ → Text
generate_sharded_path cal now bucket module_name directory bin_id filename create_date =
    let b = default_bucket bucket in
    let m = clean_module module_name in
    let date = if ltb 0 create_date then create_date else now in
    let name = prefixed_name (if ltb 0 bin_id then bin_id else now) filename in
    let year = four_digits (cal.year date) in
    let month = two_digits (cal.month date) in
    if text_eq m (codes "legacy_scan") && not (is_empty directory)
    then join (b ∷ directory ∷ year ∷ month ∷ name ∷ [])
    else join (b ∷ m ∷ year ∷ month ∷ name ∷ [])
