-- ===== src/Storage/Cas.antt =====
-- internal/storage/storage.go: what SaveCAS leaves in the directory of objects.
pub mod Keeps
use omni_blob.Base.{
  Bool, ◌⊎◌, ℕ, ◌≡◌, refl, sym, ap, ◌∙◌, inl, inr, true, false, Option, none, some, List, [], ◌∷◌,
  ◌++◌, arith, Bool-cases, Option-cases, length, Text, text_eq, text_eq_iff, text_eq_refl,
  has_prefix,
}
use omni_blob.FilePath.{slash}
use omni_blob.FileSystem.{
  FileSystem, Node, file, exists, put, remove, rename, ensure_parents, Stream, Faults, is_some,
  written, written_all, discard,
}
use omni_blob.Storage.{
  StorageService, Hash, Saved, StorageError, Outcome, saved, error, save_cas, commit_cas,
  object_path, object_rel, temp_path, create_refused, rename_failed, mkdir_failed, create_failed,
  copy_failed,
}
use omni_blob.Storage.Paths.{object_path-below, temp_path-below}
use omni_blob.Storage.Apart.{
  below-eq, below-above, not_above_self, temp_text, object-ne-temp, temp_not_above,
}
use omni_blob.Storage.Objects.{
  IsCas, apart, not_above, parents_keep, put_keep, discard_keep, remove_keep, put_object,
  IsStored-of_some, IsStored-of_exists, IsStored-after_discard, IsStored-after_put, IsStored,
}

-- The calls whose errors SaveCAS drops do not fail: Close, a Stat of a file that is there or missing,
-- and Remove.
abbrev pub IsHonest : Faults → Type 0
IsHonest faults =
    (faults.lost ≡ none)
    × (faults.stat_fails ≡ false)
    × (faults.restat_fails ≡ false)
    × (faults.remove_fails ≡ false)

module _ (sha : Hash) (s : StorageService) (b : Text) (root : s.root_path ≡ slash ∷ b)
    (nano : ℕ) where
  -- What SaveCAS answers for the bytes of a stream.
  abbrev pub result_of : List ℕ → Saved
  result_of bs = record {
    rel_path = object_rel (sha.sum bs);
    checksum = sha.sum bs;
    size = length bs;
  }

  -- A Stat of the object fails for another reason than a missing file.
  abbrev pub StatFails : Faults → Type 0
  StatFails faults = (faults.stat_fails ≡ true) ⊎ (faults.restat_fails ≡ true)

  -- What a run of SaveCAS has to show for the bytes of its stream.
  abbrev pub Commits : Faults → List ℕ → FileSystem × Outcome → Type 0
  Commits faults bs run =
      IsCas sha s run.0
      × ((r : Saved)
          → run.1 ≡ saved r
          → (r ≡ result_of bs) × (IsStored sha s b root nano bs run.0 ⊎ StatFails faults))
      × ((run.0 (temp_path s nano) ≡ none) ⊎ (faults.remove_fails ≡ true))

  discarded :
      (faults : Faults) (fs : FileSystem)
      → (discard faults.remove_fails (temp_path s nano) fs (temp_path s nano) ≡ none)
        ⊎ (faults.remove_fails ≡ true)
  unfolding discard
  discarded faults fs = elim (Bool-cases faults.remove_fails) [
    | inl fails ↦ inr fails
    | inr works ↦ inl (ground (arith, works, text_eq_refl (temp_path s nano)))
  ]

  Commits-existing :
      (faults : Faults) (stat_fails : Bool) (bs : List ℕ) (fs : FileSystem)
      → (stat_fails ≡ true → StatFails faults)
      → IsCas sha s fs
      → exists stat_fails fs (object_path s (sha.sum bs)) ≡ true
      → Commits faults bs (discard faults.remove_fails (temp_path s nano) fs, saved (result_of bs))
  Commits-existing faults stat_fails bs fs told c e = (
    discard_keep sha s b root nano faults fs c,
    λ r k. (
      cc,
      elim (IsStored-of_exists sha s b root nano stat_fails bs fs c e) [
        | inl there ↦ inl (IsStored-after_discard sha s b root nano faults bs fs there)
        | inr fails ↦ inr (told fails)
      ],
    ),
    discarded faults fs,
  )

  Commits-error :
      (faults : Faults) (bs : List ℕ) (fs : FileSystem) (e : StorageError)
      → IsCas sha s fs
      → (fs (temp_path s nano) ≡ none) ⊎ (faults.remove_fails ≡ true)
      → Commits faults bs (fs, error e)
  Commits-error faults bs fs e c t = (c, λ r k. absurd (ground arith), t)

  Commits-renamed :
      (faults : Faults) (bs : List ℕ) (now : ℕ) (fs : FileSystem)
      → IsCas sha s fs
      → fs (temp_path s nano) ≡ some (file bs now)
      → Commits faults bs
          (rename (temp_path s nano) (object_path s (sha.sum bs)) fs, saved (result_of bs))
  Commits-renamed faults bs now fs c t =
      rw (t, rename)
        (
          put_object sha s b root nano bs now (remove (temp_path s nano) fs)
              (remove_keep sha s b root nano fs c),
          λ r k. (
            cc,
            inl (IsStored-after_put sha s b root nano bs now (remove (temp_path s nano) fs)),
          ),
          inl (
              ground (
                arith,
                apart sha s b root nano bs,
                text_eq_iff (object_path s (sha.sum bs)) (temp_path s nano),
                text_eq_refl (temp_path s nano),
              )),
        )

  -- Other requests keep the objects and leave the temporary file alone.
  module _ (others : FileSystem → FileSystem)
      (keep : (fs : FileSystem) → IsCas sha s fs → IsCas sha s (others fs))
      (alone : (fs : FileSystem) → others fs (temp_path s nano) ≡ fs (temp_path s nano)) where
    commit_cas-Commits :
        (faults : Faults) (bs : List ℕ) (now : ℕ) (fs : FileSystem)
        → IsCas sha s fs
        → fs (temp_path s nano) ≡ some (file bs now)
        → Commits faults bs (commit_cas s faults others (temp_path s nano) (result_of bs) fs)
    unfolding commit_cas
    commit_cas-Commits faults bs now fs c t =
        let dest : Text = object_path s (sha.sum bs) in
        let after : others fs (temp_path s nano) ≡ some (file bs now) = alone fs ∙ t in
        elim (Bool-cases (exists faults.stat_fails fs dest)) [
          | inl there ↦
              rw (there, commit_cas)
                (Commits-existing faults faults.stat_fails bs fs (λ e. inl e) c there)
          | inr new ↦ elim (Bool-cases faults.rename_fails) [
            | inl fails ↦ elim (Bool-cases (exists faults.restat_fails (others fs) dest)) [
              | inl raced ↦
                  rw (new, commit_cas, fails, raced)
                    (Commits-existing faults faults.restat_fails bs (others fs) (λ e. inr e)
                      (keep fs c) raced)
              | inr still ↦
                  rw (new, commit_cas, fails, still)
                    (Commits-error faults bs
                      (discard faults.remove_fails (temp_path s nano) (others fs)) rename_failed
                      (discard_keep sha s b root nano faults (others fs) (keep fs c))
                      (discarded faults (others fs)))
            ]
            | inr works ↦
                let present : is_some (others fs (temp_path s nano)) ≡ true = rw after in
                rw (new, commit_cas, works, present)
                  (Commits-renamed faults bs now (others fs) (keep fs c) after)
          ]
        ]

    -- Whatever calls fail but the Close of the temporary file, SaveCAS keeps every object under the
    -- hash of its bytes; it leaves no temporary file, unless os.Remove fails; where it reports
    -- success, it answers the hash of the stream, its length and the path of that hash, and an
    -- object with that hash is stored, unless a Stat of it fails for another reason than a missing
    -- file. It is assumed that the root is an absolute path, that this was so before, and that
    -- other requests keep the objects and leave the temporary file alone.
    pub save_cas_safe :
        (faults : Faults) (now : ℕ) (stream : Stream) (fs : FileSystem)
        → faults.lost ≡ none
        → IsCas sha s fs
        → fs (temp_path s nano) ≡ none
        → Commits faults stream.bytes (save_cas sha s faults others nano now stream fs)
    unfolding save_cas commit_cas
    save_cas_safe faults now stream fs closes c t =
        let temp : Text = temp_path s nano in
        let bs : List ℕ = stream.bytes in
        let fs1 : FileSystem = ensure_parents temp fs in
        let c1 : IsCas sha s fs1 = parents_keep sha s b root nano fs c in
        let t1 : fs1 temp ≡ none = ground (arith, t, not_above_self temp slash) in
        let node : Node = file (written faults.lost bs) now in
        let fs2 : FileSystem = put temp node fs1 in
        let c2 : IsCas sha s fs2 = put_keep sha s b root nano node fs1 c1 in
        let t2 : fs2 temp ≡ some (file bs now) =
          rw (text_eq_refl temp)
            (ap (λ w. some (file w now)) (written_all faults.lost bs closes)) in
        elim (Bool-cases faults.mkdir_fails) [
          | inl m ↦ rw (m, save_cas) (Commits-error faults bs fs mkdir_failed c (inl t))
          | inr m ↦ elim (Bool-cases (create_refused faults fs1 temp)) [
            | inl r ↦ rw (m, save_cas, r) (Commits-error faults bs fs1 create_failed c1 (inl t1))
            | inr r ↦ elim (Bool-cases stream.breaks) [
              | inl k ↦
                  rw (m, save_cas, r, k)
                    (Commits-error faults bs (discard faults.remove_fails temp fs2) copy_failed
                      (discard_keep sha s b root nano faults fs2 c2) (discarded faults fs2))
              | inr k ↦ rw (m, save_cas, r, k) (commit_cas-Commits faults bs now fs2 c2 t2)
            ]
          ]
        ]

  -- What it then has to show.
  abbrev pub Settles : List ℕ → FileSystem × Outcome → Type 0
  Settles bs run =
      IsCas sha s run.0
      × ((r : Saved) → run.1 ≡ saved r → (r ≡ result_of bs) × IsStored sha s b root nano bs run.0)
      × (run.0 (temp_path s nano) ≡ none)

  unless {ℓ} : {A : Type ℓ} (b : Bool) → b ≡ false → A ⊎ (b ≡ true) → A
  unless b e (inl a) = a
  unless b e (inr h) = absurd (ground (arith, e, h))

  pub Commits-Settles :
      (faults : Faults) (bs : List ℕ) (run : FileSystem × Outcome)
      → IsHonest faults
      → Commits faults bs run
      → Settles bs run
  Commits-Settles faults bs run (closes, stat, restat, remove) (cas, stored, clear) = (
    cas,
    λ r k.
        let (same, there) = stored r k in
        (
          same,
          elim there [
            | inl at ↦ at
            | inr (inl fails) ↦ absurd (ground (arith, stat, fails))
            | inr (inr fails) ↦ absurd (ground (arith, restat, fails))
          ],
        ),
    unless faults.remove_fails remove clear,
  )
