-- ===== src/Storage/Objects.antt =====
-- internal/storage/storage.go: the directory of objects, and which writes keep it.
use omni_blob.Base.{
  Bool, ◌⊎◌, ℕ, ◌≡◌, refl, sym, ap, ◌∙◌, inl, inr, true, false, Option, some, List, [], ◌∷◌, ◌++◌,
  arith, Bool-cases, Option-cases, Text, text_eq, text_eq_iff, text_eq_refl, has_prefix,
}
use omni_blob.FilePath.{slash}
use omni_blob.FileSystem.{
  FileSystem, Node, file, exists, put, remove, ensure_parents, Faults, is_some, discard,
}
use omni_blob.Storage.{StorageService, Hash, object_path, temp_path}
use omni_blob.Storage.Paths.{object_path-below, temp_path-below}
use omni_blob.Storage.Apart.{below-eq, below-above, temp_text, object-ne-temp, temp_not_above}

-- Every object is a file whose bytes have the hash that it is called by.
abbrev pub IsObject : Hash → List ℕ → Option Node → Type 0
IsObject sha bs o =
    (n : Node)
    → o ≡ some n
    → (content : List ℕ) × (time : ℕ) × (n ≡ file content time) × (sha.sum content ≡ sha.sum bs)

abbrev pub IsCas : Hash → StorageService → FileSystem → Type 0
IsCas sha s fs = (bs : List ℕ) → IsObject sha bs (fs (object_path s (sha.sum bs)))

module _ (sha : Hash) (s : StorageService) (b : Text) (root : s.root_path ≡ slash ∷ b)
    (nano : ℕ) where
  -- An object is no temporary file and no directory above one, and two hashes are two objects.
  pub apart : (bs : List ℕ) → text_eq (temp_path s nano) (object_path s (sha.sum bs)) ≡ false
  apart bs =
      rw
        (
          temp_path-below s b root nano,
          object_path-below s b root (sha.sum bs) (sha.sum_length bs) (sha.sum_whole bs),
          below-eq s (temp_text nano) (sha.sum bs),
        )
        (object-ne-temp (sha.sum bs) nano (sha.sum_whole bs))

  pub not_above :
      (bs : List ℕ)
      → has_prefix (temp_path s nano) (object_path s (sha.sum bs) ++ (slash ∷ [])) ≡ false
  not_above bs =
      rw
        (
          temp_path-below s b root nano,
          object_path-below s b root (sha.sum bs) (sha.sum_length bs) (sha.sum_whole bs),
        )
        (below-above s (temp_text nano) (sha.sum bs)
          ∙ temp_not_above (sha.sum bs) nano (sha.sum_length bs) (sha.sum_whole bs))

  pub parents_keep :
      (fs : FileSystem) → IsCas sha s fs → IsCas sha s (ensure_parents (temp_path s nano) fs)
  parents_keep fs c bs n e = c bs n (ground (arith, not_above bs))

  pub put_keep :
      (n : Node) (fs : FileSystem) → IsCas sha s fs → IsCas sha s (put (temp_path s nano) n fs)
  put_keep n fs c bs n' e = c bs n' (ground (arith, apart bs))

  pub discard_keep :
      (faults : Faults) (fs : FileSystem)
      → IsCas sha s fs
      → IsCas sha s (discard faults.remove_fails (temp_path s nano) fs)
  unfolding discard
  discard_keep faults fs c bs n e = c bs n (ground (arith, apart bs))

  pub remove_keep : (fs : FileSystem) → IsCas sha s fs → IsCas sha s (remove (temp_path s nano) fs)
  remove_keep fs c bs n e = c bs n (ground (arith, apart bs))

  -- The file of the bytes `bs` is where it belongs.
  pub put_object :
      (bs : List ℕ) (time : ℕ) (fs : FileSystem)
      → IsCas sha s fs
      → IsCas sha s (put (object_path s (sha.sum bs)) (file bs time) fs)
  put_object bs time fs c bs' n e =
      elim (Bool-cases (text_eq (object_path s (sha.sum bs)) (object_path s (sha.sum bs')))) [
        | inl same ↦ (bs, time, ground arith, same_hash same)
        | inr other ↦ c bs' n (ground arith)
      ]
    where
      same_hash :
          text_eq (object_path s (sha.sum bs)) (object_path s (sha.sum bs')) ≡ true
          → sha.sum bs ≡ sha.sum bs'
      same_hash same = (text_eq_iff (sha.sum bs) (sha.sum bs')).0 (
          sym (below-eq s (sha.sum bs) (sha.sum bs'))
          ∙ (rw
              (
                object_path-below s b root (sha.sum bs) (sha.sum_length bs) (sha.sum_whole bs),
                object_path-below s b root (sha.sum bs') (sha.sum_length bs') (sha.sum_whole bs'),
              )
              at same))

  -- What is stored for the bytes `bs`.
  abbrev pub IsStored : List ℕ → FileSystem → Type 0
  IsStored bs fs =
      (content : List ℕ) × (time : ℕ) × (fs (object_path s (sha.sum bs)) ≡ some (file content time))
      × (sha.sum content ≡ sha.sum bs)

  pub IsStored-of_some :
      (bs : List ℕ) (fs : FileSystem)
      → IsCas sha s fs
      → is_some (fs (object_path s (sha.sum bs))) ≡ true
      → IsStored bs fs
  IsStored-of_some bs fs c e = elim (Option-cases (fs (object_path s (sha.sum bs)))) [
    | inl n ↦ absurd (ground arith)
    | inr (n, h) ↦
        let (content, time, is_file, hash) = c bs n h in (content, time, h ∙ ap some is_file, hash)
  ]

  -- What counts as existing is there, or the Stat failed otherwise.
  pub IsStored-of_exists :
      (stat_fails : Bool) (bs : List ℕ) (fs : FileSystem)
      → IsCas sha s fs
      → exists stat_fails fs (object_path s (sha.sum bs)) ≡ true
      → IsStored bs fs ⊎ (stat_fails ≡ true)
  IsStored-of_exists true bs fs c e = inr refl
  IsStored-of_exists false bs fs c e = inl (IsStored-of_some bs fs c e)

  pub IsStored-after_discard :
      (faults : Faults) (bs : List ℕ) (fs : FileSystem)
      → IsStored bs fs
      → IsStored bs (discard faults.remove_fails (temp_path s nano) fs)
  unfolding discard
  IsStored-after_discard faults bs fs (content, time, h, hash) =
      (content, time, ground (arith, h, apart bs), hash)

  pub IsStored-after_put :
      (bs : List ℕ) (now : ℕ) (fs : FileSystem)
      → IsStored bs (put (object_path s (sha.sum bs)) (file bs now) fs)
  IsStored-after_put bs now fs =
      (bs, now, ground (arith, text_eq_refl (object_path s (sha.sum bs))), refl)
