-- ===== src/Examples/Stores.antt =====
-- Concrete runs of the storage (internal/storage/storage.go) and the explorer
-- (internal/api/explorer_handler.go).
use omni_blob.Base.{
  ◌≡◌, refl, true, false, Option, none, some, List, [], arith, if◌then◌else◌, All, Text, codes,
  text_eq, has_prefix, split_on,
}
use omni_blob.Config.{StorageConfig}
use omni_blob.FilePath.{clean, join, elements, finish, is_abs}
use omni_blob.FilePath.Inside.{IsPlain}
use omni_blob.FileSystem.{FileSystem, file, put, no_faults}
use omni_blob.Storage.{Saved, saved, save_cas}
use omni_blob.Storage.Objects.{IsCas}
use omni_blob.Storage.Cas.{Commits, save_cas_safe}
use omni_blob.Storage.Files.{Opened, save_at, copy_legacy, migrate_opened}
use omni_blob.Storage.Migrate.{Migrates, migrate_opened-HasContent}
use omni_blob.Api.Explorer.{
  FileNode, ReadDir, not_exist, base_path, list_directory, virtual_listing, legacy_listing,
}
use omni_blob.Api.Explorer.Traversal.{inside, list_directory-inside}
use omni_blob.Examples.Data.{service, hash, no_disk, hello}

no_disk-IsCas : IsCas hash service no_disk
no_disk-IsCas bs n e = absurd (ground arith)

save_cas_safe_example :
    Commits hash service
      (codes "srv")
      refl
      7
      no_faults
      (codes "hello")
      (save_cas hash service no_faults (λ fs. fs) 7 7 hello no_disk)
save_cas_safe_example =
    save_cas_safe hash service (codes "srv") refl 7 (λ fs. fs) (λ fs c. c) (λ fs. refl) no_faults 7
      hello no_disk refl no_disk-IsCas refl

abbrev note_path : Text
note_path = codes "paspor/note.txt"

abbrev note_saved : Saved
note_saved = record { rel_path = note_path; checksum = hash.sum (codes "hello"); size = 5 }

note_answer : (save_at hash service no_faults 7 note_path hello no_disk).1 ≡ saved note_saved
unfolding save_at has_prefix join split_on text_eq
note_answer = refl

abbrev old_path : Text
old_path = codes "/old/note.txt"

abbrev old_disk : FileSystem
old_disk = put old_path (file (codes "hello") 3) no_disk

abbrev old_note : Opened
old_note = record { bytes = codes "hello"; mod_time = 3; actual = old_path }

abbrev new_path : Text
new_path = codes "uploads/paspor/2026/07/9_note.txt"

abbrev migrated_note : Saved
migrated_note = record { rel_path = new_path; checksum = hash.sum (codes "hello"); size = 5 }

old_found : old_disk (clean old_path) ≡ some (file (codes "hello") 3)
unfolding clean finish text_eq is_abs elements split_on
old_found = refl

note_migrates :
    (migrate_opened hash service
      (λ p. true)
      no_faults
      false
      (λ p. 4096)
      old_disk
      (codes "note.txt")
      new_path
      old_note).1
    ≡ saved migrated_note
unfolding migrate_opened copy_legacy clean join text_eq has_prefix split_on
note_migrates = refl

migrate_opened-HasContent_example :
    Migrates hash service
      (λ p. 4096)
      old_disk
      (codes "note.txt")
      new_path
      old_note
      migrated_note
      (migrate_opened hash service
        (λ p. true)
        no_faults
        false
        (λ p. 4096)
        old_disk
        (codes "note.txt")
        new_path
        old_note).0
migrate_opened-HasContent_example =
    migrate_opened-HasContent hash service (codes "srv") refl (λ p. true) (λ p. refl) no_faults
      false (λ p. 4096) old_disk (codes "note.txt") new_path old_note migrated_note refl old_found
      note_migrates

abbrev pub config : StorageConfig
config = record {
  root_path = codes "/srv";
  legacy_path = codes "/old";
  sharding_type = codes "cas";
}

legacy_base : base_path config (codes "legacy") ≡ some (codes "/old")
unfolding base_path text_eq
legacy_base = refl

abbrev pub no_dirs : Text → ReadDir
no_dirs p = not_exist

abbrev no_nodes : Text → Option (List FileNode)
no_nodes p = some []

list_directory-inside_example :
    (list_directory config none no_dirs no_nodes 9 (codes "legacy") (codes "../../etc") ≡ (
      if text_eq (codes "legacy") (codes "omniblob")
      then virtual_listing (codes "../../etc") 9 (no_nodes (codes "../../etc"))
      else legacy_listing
          (clean (codes "/../../etc"))
          (no_dirs (inside (codes "old") (codes "../../etc")))))
    × All IsPlain (elements (codes "/../../etc"))
list_directory-inside_example =
    list_directory-inside config none no_dirs no_nodes 9 (codes "legacy") (codes "../../etc")
      (codes "old") legacy_base
