-- ===== src/Api/Handler.antt =====
-- internal/api/handler.go: what the handlers of files share. Go's detection of content types and its
-- table of MIME types are parameters, and so is SaveMetadataSidecar, which the repository calls and
-- does not define.
pub mod Upload
pub mod Serve
pub mod Bulk
pub mod Unchecked
pub mod Urls
pub mod Checks
pub mod RoundTrip
pub mod Kept
pub mod Served
pub mod Deletion
pub mod SignedUrls
use omni_blob.Base.{
  ℕ, zero, suc, ◌+◌, ◌-◌, ◌*◌, ◌/◌, ◌%◌, ◌^◌, ◌≤◌, ◌<◌, String, ◌≡◌, refl, sym, ap, ◌∙◌, fun_ext,
  ◌≢◌, ◌↔◌, ◌⊎◌, inl, inr, Bool, true, false, ◌&&◌, ◌||◌, not, Option, none, some, List, [], ◌∷◌,
  ◌++◌, map, reverse, arith, ltb, leb, ◌==◌, if◌then◌else◌, ltb→lt, lt→ltb, leb→le, ==_iff, tests,
  Bool-cases, Option-cases, length, length-append, take, keep_if, any_of, all_of, head_of, All, Any,
  length-keep_if-le, keep_if-append, All-append, Text, codes, text_eq, text_eq_iff, text_eq_refl,
  text_eq-common, is_empty, or_else, has_prefix, has_prefix-append, has_prefix-common,
  has_prefix_self, has_prefix-map, trim_prefix, has_byte, contains, has_byte-append, drop_while,
  trim_if, is_space, trim_space, lower_byte, to_lower, cons_head, split_on, first_piece,
  digits_fuel, decimal, decimal-digits, contains_text, Assoc, lookup, insert, delete, lookup-insert,
  lookup-delete, is_digit, digits_value, digits_value-decimal,
}
use omni_blob.FilePath.{slash}
use omni_blob.FileSystem.{FileSystem, Stream, Faults}
use omni_blob.Storage.{StorageService, Hash}
use omni_blob.Storage.Layout.{Calendar}
use omni_blob.Entity.{BinaryFile, PhysicalObject}
use omni_blob.Repository.BinaryFiles.{Files, get_by_id, get_by_file_name}

-- What the handlers change: the files and the two tables.
pub record World : Type 0 where
  pub disk : FileSystem
  pub objects : Assoc PhysicalObject
  pub files : Files

pub record Handler : Type 0 where
  pub storage : StorageService
  pub allowed_extensions : List Text

-- NewHandler
unfoldable pub new_handler : StorageService → List Text → Handler
new_handler s extensions = record {
  storage = s;
  allowed_extensions = map (λ e. to_lower (trim_space e)) extensions;
}

pub record Env : Type 0 where
  pub sha : Hash
  pub cal : Calendar
  pub detect_content_type : List ℕ → Text
  pub type_by_extension : Text → Text
  pub save_metadata_sidecar : Text → BinaryFile → FileSystem → FileSystem
  pub readable : Text → Bool

-- What happens around one request: the calls that fail, what others do in the meantime, the clock,
-- and which queries the database answers.
pub record Luck : Type 0 where
  pub faults : Faults
  pub others : FileSystem → FileSystem
  pub nano : ℕ
  pub now : ℕ
  pub objects_up : Bool
  pub next_up : Bool
  pub files_up : Bool

-- strings.Split(strings.Trim(r.URL.Path, "/"), "/"), its third and fourth part.
abbrev bucket_and_id_of : List Text → Option (Text × Text)
bucket_and_id_of (a ∷ b ∷ bucket ∷ n ∷ rest) = some (bucket, n)
bucket_and_id_of (a ∷ b ∷ bucket ∷ []) = none
bucket_and_id_of (a ∷ b ∷ []) = none
bucket_and_id_of (a ∷ []) = none
bucket_and_id_of [] = none

unfoldable pub bucket_and_id : Text → Option (Text × Text)
bucket_and_id path = bucket_and_id_of (split_on slash (trim_if (λ c. c == slash) path))

-- strconv.ParseInt(s, 10, 64). No row has a negative identifier.
pub data Parsed : Type 0 where
  number : ℕ → Parsed
  negative not_number : Parsed

unfoldable pub parse_digits : Text → Option ℕ
unfolding digits_value
parse_digits s = if is_empty s then none else digits_value 0 s

abbrev pub in_range : ℕ → Option ℕ → Option ℕ
in_range max none = none
in_range max (some n) = if leb n max then some n else none

abbrev signed : Bool → Option ℕ → Parsed
signed minus none = not_number
signed minus (some n) = if minus && ltb 0 n then negative else number n

unfoldable pub parse_int : Text → Parsed
unfolding parse_digits
parse_int [] = not_number
parse_int (c ∷ s) =
    if c == b'-'
    then signed true (in_range (2 ^ 63) (parse_digits s))
    else if c == b'+'
    then signed false (in_range (2 ^ 63 - 1) (parse_digits s))
    else signed false (in_range (2 ^ 63 - 1) (parse_digits (c ∷ s)))

-- The record that an identifier or a file name stands for.
unfoldable pub find_meta : Bool → Text → Files → Option BinaryFile
find_meta up id t = elim (parse_int id) [
  | number n ↦ get_by_id up n t
  | negative ↦ none
  | not_number ↦ get_by_file_name up id t
]

-- The bucket in the URL has to be the record's module, except for the bucket "files".
abbrev pub in_bucket : Text → BinaryFile → Bool
in_bucket bucket f = text_eq bucket (codes "files") || text_eq f.module_name bucket

abbrev pub module_or : Text → Text → Text
module_or bucket other =
    if is_empty bucket || text_eq bucket (codes "files")
    then or_else other (codes "general")
    else bucket
