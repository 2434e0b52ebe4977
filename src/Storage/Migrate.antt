-- ===== src/Storage/Migrate.antt =====
-- internal/storage/storage.go: the files that Save and MigrateLegacyFile write.
use omni_blob.Base.{
  not, ◌&&◌, ℕ, ◌≡◌, refl, ap, ◌∙◌, ◌⊎◌, inl, inr, Bool, true, Option, none, some, List, [], ◌∷◌,
  arith, Bool-cases, length, Text, text_eq, text_eq_iff, text_eq_refl, has_prefix,
}
use omni_blob.FilePath.{slash, join, clean}
use omni_blob.FilePath.Inside.{clean-join}
use omni_blob.FileSystem.{FileSystem, Node, file, dir, ensure_parents, Stream, Faults, written_all}
use omni_blob.Storage.{StorageService, Hash, Saved, saved}
use omni_blob.Storage.Files.{
  Opened, opened_node, try_open, save_at, migrate_opened, copy_legacy, sha_of_file, size_at,
  same_size,
}

-- Where Save succeeds, nothing stood at the path before, and now the file there has the bytes of
-- the stream, whose hash and length are reported.
pub save_at_safe :
    (sha : Hash) (s : StorageService) (faults : Faults) (now : ℕ) (rel : Text) (stream : Stream)
    (fs : FileSystem) (r : Saved)
    → faults.lost ≡ none
    → (save_at sha s faults now rel stream fs).1 ≡ saved r
    → (fs (join (s.root_path ∷ rel ∷ [])) ≡ none)
      × (r.rel_path ≡ rel)
      × (r.checksum ≡ sha.sum stream.bytes)
      × (r.size ≡ length stream.bytes)
      × ((save_at sha s faults now rel stream fs).0 (join (s.root_path ∷ rel ∷ []))
          ≡ some (file stream.bytes now))
unfolding save_at
save_at_safe sha s faults now rel stream fs r closes e = (
  ground arith,
  ground arith,
  ground arith,
  ground arith,
  ground (
    arith,
    written_all faults.lost stream.bytes closes,
    text_eq_refl (join (s.root_path ∷ rel ∷ [])),
  ),
)

-- A legacy file that is copied arrives with its bytes and its time.
pub copy_legacy_arrives :
    (sha : Hash) (faults : Faults) (breaks : Bool) (fs : FileSystem) (rel dest : Text)
    (src : Opened) (r : Saved)
    → faults.lost ≡ none
    → (copy_legacy sha faults breaks fs rel dest src).1 ≡ saved r
    → ((copy_legacy sha faults breaks fs rel dest src).0 dest ≡ some (file src.bytes src.mod_time))
      × (r.checksum ≡ sha.sum src.bytes)
      × (r.size ≡ length src.bytes)
unfolding copy_legacy
copy_legacy_arrives sha faults breaks fs rel dest src r closes e =
    let all = written_all faults.lost src.bytes closes in
    (ground (arith, all, text_eq_refl dest), ground arith, ground arith)

-- The file at `p` has the checksum and the size that are reported.
abbrev pub HasContent : Hash → FileSystem → Text → Saved → Type 0
HasContent sha fs p r =
    (content : List ℕ) × (time : ℕ) × (fs p ≡ some (file content time))
    × (sha.sum content ≡ r.checksum)
    × (length content ≡ r.size)

try_open-found :
    (readable : Text → Bool) (fs : FileSystem) (p : Text) (content : List ℕ) (time : ℕ)
    → readable p ≡ true
    → fs (clean p) ≡ some (file content time)
    → try_open readable fs p ≡ some (record { bytes = content; mod_time = time; actual = p })
unfolding try_open
try_open-found readable fs p content time h e = rw (h, try_open, e)

sha_of_file-found :
    (sha : Hash) (readable : Text → Bool) (fs : FileSystem) (p : Text) (content : List ℕ) (time : ℕ)
    → readable p ≡ true
    → fs (clean p) ≡ some (file content time)
    → sha_of_file sha readable fs p ≡ sha.sum content
unfolding sha_of_file
sha_of_file-found sha readable fs p content time h e =
    rw (try_open-found readable fs p content time h e, sha_of_file)

-- A file of the size stands there, or a directory.
size_at-found :
    (dir_size : Text → ℕ) (fs : FileSystem) (p : Text) (n : ℕ)
    → same_size (size_at dir_size fs p) n ≡ true
    → ((content : List ℕ) × (time : ℕ) × (fs p ≡ some (file content time)) × (length content ≡ n))
      ⊎ (fs p ≡ some dir)
size_at-found dir_size fs p n h = go (fs p) refl
  where
    go :
        (o : Option Node)
        → fs p ≡ o
        → ((content : List ℕ) × (time : ℕ) × (fs p ≡ some (file content time))
            × (length content ≡ n))
          ⊎ (fs p ≡ some dir)
    go none e = absurd (ground arith)
    go (some dir) e = inr e
    go (some (file content time)) e = inl (content, time, e, ground arith)

size_at-dir :
    (dir_size : Text → ℕ) (fs : FileSystem) (p : Text) (n : ℕ)
    → fs p ≡ some dir
    → same_size (size_at dir_size fs p) n ≡ true
    → dir_size p ≡ n
size_at-dir dir_size fs p n e h = ground (arith, e, h)

-- The hash of a directory is dropped with its error.
sha_of_file-dir :
    (sha : Hash) (readable : Text → Bool) (fs : FileSystem) (p : Text)
    → readable p ≡ true
    → fs (clean p) ≡ some dir
    → sha_of_file sha readable fs p ≡ []
unfolding sha_of_file try_open opened_node
sha_of_file-dir sha readable fs p h e = rw (h, sha_of_file, try_open, e, opened_node) refl

-- What a success of a migration shows: the file at the new place, the source as it was, or a directory
-- at the new place, which had the size of the source.
abbrev pub Migrates :
    Hash
    → StorageService
    → (Text → ℕ)
    → FileSystem
    → Text
    → Text
    → Opened
    → Saved
    → FileSystem
    → Type 0
Migrates sha s dir_size fs legacy_rel rel src r after =
    let dest = join (s.root_path ∷ rel ∷ []) in
    HasContent sha after dest r
    ⊎ ((r.rel_path ≡ legacy_rel) × (after ≡ fs) × HasContent sha fs (clean src.actual) r)
    ⊎ ((after dest ≡ some dir) × (dir_size dest ≡ length src.bytes) × (r.checksum ≡ []))

module _ (sha : Hash) (s : StorageService) (b : Text) (root : s.root_path ≡ slash ∷ b)
    (readable : Text → Bool) (all_readable : (p : Text) → readable p ≡ true) where
  dest_clean : (rel : Text) → clean (join (s.root_path ∷ rel ∷ [])) ≡ join (s.root_path ∷ rel ∷ [])
  dest_clean rel = rw root (clean-join b rel)

  -- After a migration that succeeds, either the file at the new place has the reported checksum
  -- and size, or nothing has changed and the source, which stays where it is, has them, or a
  -- directory stands at the new place, which had the size of the source, and the reported checksum
  -- is empty. It is assumed that the root is an absolute path, that files can be read, that the
  -- source is the file that was opened, and that closing the new file does not fail.
  pub migrate_opened-HasContent :
      (faults : Faults) (breaks : Bool) (dir_size : Text → ℕ) (fs : FileSystem)
      (legacy_rel rel : Text) (src : Opened) (r : Saved)
      → faults.lost ≡ none
      → fs (clean src.actual) ≡ some (file src.bytes src.mod_time)
      → (migrate_opened sha s readable faults breaks dir_size fs legacy_rel rel src).1 ≡ saved r
      → Migrates sha s dir_size fs legacy_rel rel src r
          (migrate_opened sha s readable faults breaks dir_size fs legacy_rel rel src).0
  unfolding migrate_opened
  migrate_opened-HasContent faults breaks dir_size fs legacy_rel rel src r closes found e =
      let dest : Text = join (s.root_path ∷ rel ∷ []) in
      let fs1 : FileSystem = ensure_parents dest fs in
      elim (Bool-cases (text_eq src.actual dest)) [
        | inl same ↦
            let is_dest : src.actual ≡ dest = (text_eq_iff src.actual dest).0 same in
            let at : fs (clean dest) ≡ some (file src.bytes src.mod_time) = rw (← is_dest) found in
            let hash =
              sha_of_file-found sha readable fs dest src.bytes src.mod_time (all_readable dest)
                at in
            inl
              (src.bytes, src.mod_time, ground (arith, dest_clean rel), ground arith, ground arith)
        | inr moved ↦ elim (Bool-cases (has_prefix (clean src.actual) (clean s.root_path))) [
          | inl inside ↦
              let hash =
                sha_of_file-found sha readable fs src.actual src.bytes src.mod_time
                  (all_readable src.actual) found in
              inr (
                inl (
                  ground arith,
                  ground arith,
                  (src.bytes, src.mod_time, found, ground arith, ground arith),
                ))
          | inr outside ↦ elim (Bool-cases faults.mkdir_fails) [
            | inl m ↦ absurd (ground arith)
            | inr m ↦
                elim (Bool-cases (
                  not faults.stat_fails
                  && same_size (size_at dir_size fs1 dest) (length src.bytes))) [
                    | inl z ↦
                        let same : same_size (size_at dir_size fs1 dest) (length src.bytes) ≡ true =
                          ground (arith, z) in
                        elim (size_at-found dir_size fs1 dest (length src.bytes) same) [
                          | inl (content, time, at, size) ↦
                              let hash =
                                sha_of_file-found sha readable fs1 dest content time
                                  (all_readable dest) (ap fs1 (dest_clean rel) ∙ at) in
                              inl (content, time, ground arith, ground arith, ground arith)
                          | inr at ↦
                              let hash =
                                sha_of_file-dir sha readable fs1 dest (all_readable dest)
                                  (ap fs1 (dest_clean rel) ∙ at) in
                              inr (
                                inr (
                                  ground arith,
                                  size_at-dir dir_size fs1 dest (length src.bytes) at same,
                                  ground arith,
                                ))
                        ]
                    | inr z ↦
                        let (at, hash, size) =
                          copy_legacy_arrives sha faults breaks fs1 rel dest src r closes
                            (ground arith) in
                        inl (src.bytes, src.mod_time, ground arith, ground arith, ground arith)
                  ]
          ]
        ]
      ]
