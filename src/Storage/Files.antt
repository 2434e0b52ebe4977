-- ===== src/Storage/Files.antt =====
-- internal/storage/storage.go: Save, Open, MigrateLegacyFile and Delete.
use omni_blob.Base.{
  ℕ, Bool, true, false, ◌&&◌, not, Option, none, some, List, [], ◌∷◌, ◌==◌, if◌then◌else◌, length,
  Text, codes, text_eq, is_empty, has_prefix, trim_prefix,
}
use omni_blob.FilePath.{slash, join, base_name, clean, is_abs}
use omni_blob.FileSystem.{
  FileSystem, Node, file, dir, exists, put, remove, written, discard, is_some, ensure_parents,
  Stream, Faults,
}
use omni_blob.Storage.{
  StorageService, Hash, Outcome, saved, error, file_exists, mkdir_failed, create_failed,
  copy_failed, not_found, create_refused,
}
use omni_blob.Storage.Layout.{Calendar, generate_storage_path, generate_sharded_path}

-- The relative path that Save writes to.
unfoldable pub save_path : Calendar → ℕ → Text → Text → Text → Text → Text → ℕ → Text → Text
save_path cal now bucket custom_path module_name directory ref bin_id filename =
    if not (is_empty custom_path)
    then trim_prefix custom_path (slash ∷ [])
    else if text_eq directory (codes "date")
    then generate_sharded_path cal now bucket module_name directory bin_id filename now
    else generate_storage_path bucket module_name directory ref filename

unfoldable pub save_at :
    Hash → StorageService → Faults → ℕ → Text → Stream → FileSystem → FileSystem × Outcome
save_at sha s faults now rel stream fs =
    let abs = join (s.root_path ∷ rel ∷ []) in
    if exists faults.stat_fails fs abs
    then (fs, error file_exists)
    else if faults.mkdir_fails
    then (fs, error mkdir_failed)
    else let fs1 = ensure_parents abs fs in
      if create_refused faults fs1 abs
      then (fs1, error create_failed)
      else let fs2 = put abs (file (written faults.lost stream.bytes) now) fs1 in
        if stream.breaks then (discard faults.remove_fails abs fs2, error copy_failed) else (
          fs2,
          saved (record {
            rel_path = rel;
            checksum = sha.sum stream.bytes;
            size = length stream.bytes;
          }),
        )

unfoldable pub save :
    Hash
    → Calendar
    → StorageService
    → Faults
    → ℕ
    → Text
    → Text
    → Text
    → Text
    → Text
    → ℕ
    → Text
    → Stream
    → FileSystem
    → FileSystem × Outcome
save sha cal s faults now bucket custom_path module_name directory ref bin_id filename stream fs =
    save_at sha s faults now
      (save_path cal now bucket custom_path module_name directory ref bin_id filename) stream fs

-- An open file: its bytes, the time of its last change and the path that it was found at.
pub record Opened : Type 0 where
  pub bytes : List ℕ
  pub mod_time : ℕ
  pub actual : Text

unfoldable pub opened_node : Text → Option Node → Option Opened
opened_node p none = none
opened_node p (some dir) = none
opened_node p (some (file bs t)) = some (record { bytes = bs; mod_time = t; actual = p })

-- Exists, os.Open and Stat, where `readable` says which files may be opened.
unfoldable pub try_open : (Text → Bool) → FileSystem → Text → Option Opened
unfolding opened_node
try_open readable fs p = if readable p then opened_node p (fs (clean p)) else none

abbrev pub or_try {ℓ} : {A : Type ℓ} → Option A → Option A → Option A
or_try none b = b
or_try (some a) b = some a

unfoldable pub open_legacy : StorageService → (Text → Bool) → FileSystem → Text → Option Opened
open_legacy s readable fs rel =
    if is_empty s.legacy_path
    then none
    else or_try (try_open readable fs (join (s.legacy_path ∷ rel ∷ [])))
        (try_open readable fs (join (s.legacy_path ∷ base_name rel ∷ [])))

unfoldable pub open_file : StorageService → (Text → Bool) → FileSystem → Text → Option Opened
open_file s readable fs path =
    let rel = trim_prefix path (slash ∷ []) in
    or_try (try_open readable fs (join (s.root_path ∷ rel ∷ [])))
      (or_try (try_open readable fs path) (open_legacy s readable fs rel))

-- fileutil.SHA256FromFile, whose error MigrateLegacyFile drops.
unfoldable pub sha_of_file : Hash → (Text → Bool) → FileSystem → Text → Text
sha_of_file sha readable fs p = elim (try_open readable fs p) [
  | none ↦ []
  | some f ↦ sha.sum f.bytes
]

-- The size that os.Stat gives for what stands at a path. A directory has a size of its own, which the
-- file system chooses.
abbrev pub size_at : (Text → ℕ) → FileSystem → Text → Option ℕ
size_at dir_size fs p = elim (fs p) [
  | none ↦ none
  | some n ↦ elim n [ dir ↦ some (dir_size p) | file bs t ↦ some (length bs) ]
]

abbrev pub same_size : Option ℕ → ℕ → Bool
same_size none n = false
same_size (some m) n = m == n

-- The copy into the sharded layout, keeping the time of the source. `breaks` says whether it fails.
unfoldable pub copy_legacy :
    Hash → Faults → Bool → FileSystem → Text → Text → Opened → FileSystem × Outcome
copy_legacy sha faults breaks fs rel dest src =
    if create_refused faults fs dest
    then (fs, error create_failed)
    else if breaks
    then (discard faults.remove_fails dest fs, error copy_failed)
    else (
      put dest (file (written faults.lost src.bytes) src.mod_time) fs,
      saved (record { rel_path = rel; checksum = sha.sum src.bytes; size = length src.bytes }),
    )

-- MigrateLegacyFile from the opened source on.
unfoldable pub migrate_opened :
    Hash
    → StorageService
    → (Text → Bool)
    → Faults
    → Bool
    → (Text → ℕ)
    → FileSystem
    → Text
    → Text
    → Opened
    → FileSystem × Outcome
unfolding copy_legacy
migrate_opened sha s readable faults breaks dir_size fs legacy_rel rel src =
    let dest = join (s.root_path ∷ rel ∷ []) in
    if text_eq src.actual dest
    then (
      fs,
      saved (record {
        rel_path = rel;
        checksum = sha_of_file sha readable fs dest;
        size = length src.bytes;
      }),
    )
    else if has_prefix (clean src.actual) (clean s.root_path)
    then (
      fs,
      saved (record {
        rel_path = legacy_rel;
        checksum = sha_of_file sha readable fs src.actual;
        size = length src.bytes;
      }),
    )
    else if faults.mkdir_fails
    then (fs, error mkdir_failed)
    else let fs1 = ensure_parents dest fs in
      if not faults.stat_fails && same_size (size_at dir_size fs1 dest) (length src.bytes)
      then (
        fs1,
        saved (record {
          rel_path = rel;
          checksum = sha_of_file sha readable fs1 dest;
          size = length src.bytes;
        }),
      )
      else copy_legacy sha faults breaks fs1 rel dest src

unfoldable pub migrate_legacy_file :
    Hash
    → Calendar
    → StorageService
    → (Text → Bool)
    → Faults
    → Bool
    → (Text → ℕ)
    → ℕ
    → Text
    → Text
    → Text
    → Text
    → ℕ
    → Text
    → FileSystem
    → FileSystem × Outcome
migrate_legacy_file sha cal s readable faults breaks dir_size now bucket legacy_rel module_name
      directory bin_id filename fs =
    elim (open_file s readable fs legacy_rel) [
      | none ↦ (fs, error not_found)
      | some src ↦
          migrate_opened sha s readable faults breaks dir_size fs legacy_rel
            (generate_sharded_path cal now bucket module_name directory bin_id filename
              src.mod_time)
            src
    ]

-- os.Remove of the file, if there is one and the system allows it; `true` where it is removed.
unfoldable pub delete_file : StorageService → Bool → Text → FileSystem → FileSystem × Bool
delete_file s allowed path fs =
    let rel = trim_prefix path (slash ∷ []) in
    let actual = if is_abs rel then clean rel else join (s.root_path ∷ rel ∷ []) in
    if is_some (fs actual) && allowed then (remove actual fs, true) else (fs, false)
