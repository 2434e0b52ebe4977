-- ===== src/Storage/Cas/Keeps.antt =====
-- internal/storage/storage.go: SaveCAS beside any other temporary files.
use omni_blob.Base.{
  ap, none, ℕ, ◌≡◌, inl, inr, some, List, ◌∷◌, arith, Bool-cases, Text, text_eq_refl,
}
use omni_blob.FilePath.{slash}
use omni_blob.FileSystem.{
  FileSystem, file, Node, put, ensure_parents, Stream, Faults, written, written_all, discard,
}
use omni_blob.Storage.{
  StorageService, Hash, Saved, StorageError, mkdir_failed, create_failed, copy_failed, Outcome,
  saved, error, save_cas, commit_cas, create_refused, temp_path,
}
use omni_blob.Storage.Cas.{Commits, result_of, commit_cas-Commits}
use omni_blob.Storage.Objects.{IsCas, parents_keep, put_keep, discard_keep}

module _ (sha : Hash) (s : StorageService) (b : Text) (root : s.root_path ≡ slash ∷ b)
    (nano : ℕ) where
  -- The objects stand under their hashes, and a success has stored what it answers.
  abbrev pub Keeps : List ℕ → FileSystem × Outcome → Type 0
  Keeps bs run =
      IsCas sha s run.0 × ((r : Saved) → run.1 ≡ saved r → r ≡ result_of sha s b root nano bs)

  Keeps-error :
      (bs : List ℕ) (fs : FileSystem) (e : StorageError) → IsCas sha s fs → Keeps bs (fs, error e)
  Keeps-error bs fs e c = (c, λ r k. absurd (ground arith))

  Keeps-Commits :
      (faults : Faults) (bs : List ℕ) (run : FileSystem × Outcome)
      → Commits sha s b root nano faults bs run
      → Keeps bs run
  Keeps-Commits faults bs run (cas, ok, clear) = (cas, λ r k. (ok r k).0)

  module _ (others : FileSystem → FileSystem)
      (keep : (fs : FileSystem) → IsCas sha s fs → IsCas sha s (others fs))
      (alone : (fs : FileSystem) → others fs (temp_path s nano) ≡ fs (temp_path s nano)) where
    -- Also where a file of the temporary name is there already, which os.Create empties.
    pub save_cas-Keeps :
        (faults : Faults) (now : ℕ) (stream : Stream) (fs : FileSystem)
        → faults.lost ≡ none
        → IsCas sha s fs
        → Keeps stream.bytes (save_cas sha s faults others nano now stream fs)
    unfolding save_cas commit_cas
    save_cas-Keeps faults now stream fs closes c =
        let temp : Text = temp_path s nano in
        let bs : List ℕ = stream.bytes in
        let fs1 : FileSystem = ensure_parents temp fs in
        let c1 : IsCas sha s fs1 = parents_keep sha s b root nano fs c in
        let node : Node = file (written faults.lost bs) now in
        let fs2 : FileSystem = put temp node fs1 in
        let c2 : IsCas sha s fs2 = put_keep sha s b root nano node fs1 c1 in
        let t2 : fs2 temp ≡ some (file bs now) =
          rw (text_eq_refl temp)
            (ap (λ w. some (file w now)) (written_all faults.lost bs closes)) in
        elim (Bool-cases faults.mkdir_fails) [
          | inl m ↦ rw (m, save_cas) (Keeps-error bs fs mkdir_failed c)
          | inr m ↦ elim (Bool-cases (create_refused faults fs1 temp)) [
            | inl r ↦ rw (m, save_cas, r) (Keeps-error bs fs1 create_failed c1)
            | inr r ↦ elim (Bool-cases stream.breaks) [
              | inl k ↦
                  rw (m, save_cas, r, k)
                    (Keeps-error bs (discard faults.remove_fails temp fs2) copy_failed
                      (discard_keep sha s b root nano faults fs2 c2))
              | inr k ↦
                  rw (m, save_cas, r, k)
                    (Keeps-Commits faults bs
                      (commit_cas s faults others temp (result_of sha s b root nano bs) fs2)
                      (commit_cas-Commits sha s b root nano others keep alone faults bs now fs2 c2
                        t2))
            ]
          ]
        ]
