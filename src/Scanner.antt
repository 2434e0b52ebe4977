-- ===== src/Scanner.antt =====
-- cmd/file-sync/main.go, runLegacyScanner: records for the files of the legacy directory. What
-- filepath.WalkDir visits is given, with the relative path that filepath.Rel gives. The identifiers
-- come from the sequence of the column bin_id, which internal/database/postgres.go declares with the
-- lengths of the texts; a text is its list of characters.
pub mod Rows
pub mod Again
use omni_blob.Base.{
  ℕ, zero, suc, ◌+◌, ◌-◌, ◌*◌, ◌/◌, ◌%◌, ◌^◌, ◌≤◌, ◌<◌, String, ◌≡◌, refl, sym, ap, ◌∙◌, fun_ext,
  ◌≢◌, ◌↔◌, ◌⊎◌, inl, inr, Bool, true, false, ◌&&◌, ◌||◌, not, Option, none, some, List, [], ◌∷◌,
  ◌++◌, map, reverse, arith, ltb, leb, ◌==◌, if◌then◌else◌, ltb→lt, lt→ltb, leb→le, ==_iff, tests,
  Bool-cases, Option-cases, length, length-append, take, keep_if, any_of, all_of, head_of, All, Any,
  length-keep_if-le, keep_if-append, All-append, Text, codes, text_eq, text_eq_iff, text_eq_refl,
  text_eq-common, is_empty, or_else, has_prefix, has_prefix-append, has_prefix-common,
  has_prefix_self, has_prefix-map, trim_prefix, has_byte, contains, has_byte-append, drop_while,
  trim_if, is_space, trim_space, lower_byte, to_lower, cons_head, split_on, first_piece, cons_cut,
  cut, digits_fuel, decimal, decimal-digits, decimal-given, contains_text, Assoc, lookup, insert,
  delete, lookup-insert, lookup-delete, delete-insert, is_digit, digits_value, digits_value-decimal,
  ℤ, negate, is_positive, magnitude, signed_within, atoi, pos, negsuc,
}
use omni_blob.FilePath.{base_name, dir_name}
use omni_blob.Entity.{BinaryFile}
use omni_blob.Repository.BinaryFiles.{Files}

-- An entry with an error, a directory, or a file: its relative path and its time and size, where
-- they can be told.
pub data Visit : Type 0 where
  inaccessible directory : Visit
  file : Option Text → Option (ℕ × ℕ) → Visit

-- A visit, the clock, and whether the two queries are answered.
pub record Step : Type 0 where
  pub visit : Visit
  pub now : ℕ
  pub exists_up : Bool
  pub insert_up : Bool

-- The rows and the next value of the sequence.
pub record Table : Type 0 where
  pub rows : Files
  pub next_serial : ℕ

abbrev pub legacy_scan : Text
legacy_scan = codes "legacy_scan"

unfoldable pub is_scanned : Text → Files → Bool
is_scanned path t = any_of (λ f. text_eq f.path path && text_eq f.module_name legacy_scan) t

abbrev pub no_dot : Text → Text
no_dot dir = if text_eq dir (codes ".") then [] else dir

abbrev pub time_or : ℕ → Option (ℕ × ℕ) → ℕ
time_or now none = now
time_or now (some (time, size)) = time

abbrev pub size_or : Option (ℕ × ℕ) → ℕ
size_or none = 0
size_or (some (time, size)) = size

-- The columns that the statement does not name take the table's defaults.
unfoldable pub scanned_row : ℕ → ℕ → Text → Option (ℕ × ℕ) → BinaryFile
scanned_row id now path info = record {
  bin_id = id;
  referensi_id = codes "auto_" ++ path;
  module_name = legacy_scan;
  directory = no_dot (dir_name path);
  file_name = base_name path;
  path = path;
  size = size_or info;
  mime_type = [];
  checksum = [];
  flag = codes "1";
  create_date = time_or now info;
  app_name = [];
}

-- VARCHAR(100), VARCHAR(255) and VARCHAR(500)
unfoldable pub row_fits : BinaryFile → Bool
row_fits f =
    leb (length f.referensi_id) 100
    && leb (length f.directory) 255
    && leb (length f.file_name) 255
    && leb (length f.path) 500

-- An INSERT takes the next value of the sequence also where it fails after that.
unfoldable pub insert_serial : Bool → BinaryFile → Table → Table × Bool
unfolding row_fits
insert_serial up f t =
    if not up
    then (t, false)
    else if row_fits f && not (any_of (λ x. x.bin_id == f.bin_id) t.rows)
    then (record { rows = t.rows ++ f ∷ []; next_serial = t.next_serial + 1 }, true)
    else (record t { next_serial = t.next_serial + 1 }, false)

abbrev pub counted : Table × Bool → Table × ℕ
counted (t, true) = (t, 1)
counted (t, false) = (t, 0)

-- A file that the query does not find, also because it fails, is inserted.
unfoldable pub scan_file : Step → Text → Option (ℕ × ℕ) → Table → Table × ℕ
unfolding is_scanned scanned_row insert_serial
scan_file s path info t =
    if s.exists_up && is_scanned path t.rows
    then (t, 0)
    else counted (insert_serial s.insert_up (scanned_row t.next_serial s.now path info) t)

unfoldable pub scan_visit : Step → Visit → Table → Table × ℕ
unfolding scan_file
scan_visit s inaccessible t = (t, 0)
scan_visit s directory t = (t, 0)
scan_visit s (file none info) t = (t, 0)
scan_visit s (file (some path) info) t = scan_file s path info t

unfoldable pub scan_all : List Step → Table → Table × ℕ
unfolding scan_visit
scan_all [] t = (t, 0)
scan_all (s ∷ ss) t =
    let first = scan_visit s s.visit t in
    let rest = scan_all ss first.0 in (rest.0, first.1 + rest.1)

-- runLegacyScanner; `present` is whether the legacy path exists. The count is the number of rows
-- written.
unfoldable pub run_legacy_scanner : Bool → List Step → Table → Table × ℕ
unfolding scan_all
run_legacy_scanner present steps t = if present then scan_all steps t else (t, 0)
