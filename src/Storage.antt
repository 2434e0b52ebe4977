-- ===== src/Storage.antt =====
-- internal/storage/storage.go: the stored files. SHA-256 and the calendar are parameters.
pub mod Paths
pub mod Apart
pub mod Objects
pub mod Cas
pub mod Layout
pub mod Files
pub mod Migrate
use omni_blob.Base.{
  ℕ, zero, suc, ◌+◌, ◌-◌, ◌*◌, ◌/◌, ◌%◌, ◌^◌, ◌≤◌, ◌<◌, String, ◌≡◌, refl, sym, ap, ◌∙◌, fun_ext,
  ◌≢◌, ◌↔◌, ◌⊎◌, inl, inr, Bool, true, false, ◌&&◌, ◌||◌, not, Option, none, some, List, [], ◌∷◌,
  ◌++◌, map, reverse, arith, ltb, leb, ◌==◌, if◌then◌else◌, ltb→lt, lt→ltb, leb→le, ==_iff, tests,
  Bool-cases, Option-cases, length, length-append, take, keep_if, any_of, all_of, head_of, All, Any,
  length-keep_if-le, keep_if-append, All-append, Text, codes, text_eq, text_eq_iff, text_eq_refl,
  is_empty, or_else, has_prefix, has_prefix-append, has_prefix-common, has_prefix_self,
  has_prefix-map, trim_prefix, has_byte, contains, drop_while, trim_if, is_space, trim_space,
  lower_byte, to_lower, cons_head, split_on, first_piece, decimal, contains_text, Assoc, lookup,
  insert, delete, lookup-insert, lookup-delete,
}
use omni_blob.FilePath.{slash, join, dir_name, base_name, clean, is_abs}
use omni_blob.FileSystem.{
  FileSystem, Node, file, dir, exists, put, written, discard, remove, rename, ensure_parents,
  is_some, is_dir, Stream, Faults,
}

pub record StorageService : Type 0 where
  pub root_path : Text
  pub legacy_path : Text
  pub sharding_type : Text

-- crypto/sha256 with encoding/hex: 64 digits, none of them a slash.
pub record Hash : Type 0 where
  pub sum : List ℕ → Text
  pub sum_length : (bs : List ℕ) → length (sum bs) ≡ 64
  pub sum_whole : (bs : List ℕ) → has_byte slash (sum bs) ≡ false

pub data StorageError : Type 0 where
  file_exists mkdir_failed create_failed copy_failed rename_failed not_found : StorageError

-- The relative path, the checksum and the size.
pub record Saved : Type 0 where
  pub rel_path : Text
  pub checksum : Text
  pub size : ℕ

pub data Outcome : Type 0 where
  saved : Saved → Outcome
  error : StorageError → Outcome

-- os.Create: an empty file that the copy fills. It is refused where a directory stands.
abbrev pub create_refused : Faults → FileSystem → Text → Bool
create_refused faults fs p = faults.create_fails || is_dir (fs p)

abbrev pub temp_name : ℕ → Text
temp_name nano = codes "temp_" ++ decimal nano

abbrev pub temp_path : StorageService → ℕ → Text
temp_path s nano =
    join (s.root_path ∷ join (codes "objects" ∷ codes "temp" ∷ temp_name nano ∷ []) ∷ [])

abbrev pub object_rel : Text → Text
object_rel h = join (codes "objects" ∷ h ∷ [])

abbrev pub object_path : StorageService → Text → Text
object_path s h = join (s.root_path ∷ object_rel h ∷ [])

-- The end of SaveCAS, with the whole stream in the temporary file.
unfoldable pub commit_cas :
    StorageService
    → Faults
    → (FileSystem → FileSystem)
    → Text
    → Saved
    → FileSystem
    → FileSystem × Outcome
commit_cas s faults others temp result fs =
    let dest = object_path s result.checksum in
    if exists faults.stat_fails fs dest
    then (discard faults.remove_fails temp fs, saved result)
    else let fs' = others fs in
      if not faults.rename_fails && is_some (fs' temp)
      then (rename temp dest fs', saved result)
      else (
        discard faults.remove_fails temp fs',
        if exists faults.restat_fails fs' dest then saved result else error rename_failed,
      )

-- SaveCAS. `nano` is the clock's reading in the temporary name, `now` the time of the write, and
-- `others` is what other requests do between the check of the object and the renaming.
unfoldable pub save_cas :
    Hash
    → StorageService
    → Faults
    → (FileSystem → FileSystem)
    → ℕ
    → ℕ
    → Stream
    → FileSystem
    → FileSystem × Outcome
save_cas sha s faults others nano now stream fs =
    let temp = temp_path s nano in
    if faults.mkdir_fails
    then (fs, error mkdir_failed)
    else let fs1 = ensure_parents temp fs in
      if create_refused faults fs1 temp
      then (fs1, error create_failed)
      else let fs2 = put temp (file (written faults.lost stream.bytes) now) fs1 in
        if stream.breaks
        then (discard faults.remove_fails temp fs2, error copy_failed)
        else let h = sha.sum stream.bytes in
          commit_cas s faults others temp
            (record { rel_path = object_rel h; checksum = h; size = length stream.bytes }) fs2
