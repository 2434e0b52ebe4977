-- ===== src/Service/Dedup/Unnamed.antt =====
-- internal/service/dedup_service.go: the scan on files that no record's path names, such as objects.
use omni_blob.Base.{
  ℕ, ◌≤◌, ◌≡◌, refl, ap, ◌∙◌, inl, inr, Bool, true, false, Option, none, List, [], ◌∷◌, ◌++◌, arith,
  Bool-cases, any_of, All, Text, text_eq, text_eq_refl, has_prefix,
}
use omni_blob.Repository.BinaryFiles.{Files, exists_by_path}
use omni_blob.Service.Dedup.{
  DedupConfig, Visit, unreadable, directory, regular, rel_below, is_orphan, path_of, skip_after,
  collect, scan,
}

abbrev pub is_listed : Text → List Text → Bool
is_listed p ps = any_of (λ q. text_eq q p) ps

collect-listed :
    (cfg : DedupConfig) (cutoff : ℕ) (exists_path : Text → Option Bool) (v : Visit)
    (rest : List Text) (p : Text)
    → is_listed p rest ≡ true
    → is_listed p (collect cfg cutoff exists_path v rest) ≡ true
collect-listed cfg cutoff exists_path (unreadable q) rest p h = h
collect-listed cfg cutoff exists_path (directory q) rest p h = h
collect-listed cfg cutoff exists_path (regular q t) rest p h =
    elim (Bool-cases (is_orphan cfg cutoff exists_path q t)) [
      | inl found ↦
          rw found
            (elim (Bool-cases (text_eq q p)) [ inl same ↦ rw same refl | inr other ↦ rw other h ])
      | inr young ↦ rw young h
    ]

-- The visit is outside the quarantine.
abbrev pub IsOutside : DedupConfig → Visit → Type 0
IsOutside cfg v = has_prefix (path_of v) cfg.quarantine_root ≡ false

skips_nothing : (cfg : DedupConfig) (v : Visit) → IsOutside cfg v → skip_after cfg none v ≡ none
skips_nothing cfg (unreadable p) h = refl
skips_nothing cfg (directory p) h = rw h refl
skips_nothing cfg (regular p t) h = refl

scan-listed :
    (cfg : DedupConfig) (cutoff : ℕ) (exists_path : Text → Option Bool) (before after : List Visit)
    (p : Text) (t : ℕ)
    → is_orphan cfg cutoff exists_path p t ≡ true
    → All (IsOutside cfg) before
    → is_listed p (scan cfg cutoff exists_path none (before ++ (regular p t ∷ after))) ≡ true
unfolding scan
scan-listed cfg cutoff exists_path [] after p t o h = rw (o, text_eq_refl p) refl
scan-listed cfg cutoff exists_path (v ∷ before) after p t o (h, hs) =
    let rest : List Text = scan cfg cutoff exists_path none (before ++ (regular p t ∷ after)) in
    ap
      (λ k. is_listed p (
        collect cfg cutoff exists_path v
          (scan cfg cutoff exists_path k (before ++ (regular p t ∷ after)))))
      (skips_nothing cfg v h)
    ∙ collect-listed cfg cutoff exists_path v rest p
        (scan-listed cfg cutoff exists_path before after p t o hs)

orphan_of_unnamed :
    (cfg : DedupConfig) (cutoff : ℕ) (files : Files) (p : Text) (t : ℕ)
    → any_of (λ f. text_eq f.path (rel_below cfg p)) files ≡ false
    → t ≤ cutoff
    → is_orphan cfg cutoff (λ x. exists_by_path true x files) p t ≡ true
unfolding is_orphan exists_by_path
orphan_of_unnamed cfg cutoff files p t u h = rw u (ground arith)

-- The scan finds every visited file that was last changed at the cutoff or before and whose path no
-- record has, whatever the table of objects says of it. It is assumed that the walk reached it
-- before any quarantine directory.
pub scan-unnamed :
    (cfg : DedupConfig) (cutoff : ℕ) (files : Files) (before after : List Visit) (p : Text) (t : ℕ)
    → any_of (λ f. text_eq f.path (rel_below cfg p)) files ≡ false
    → t ≤ cutoff
    → All (IsOutside cfg) before
    → is_listed p
        (scan cfg cutoff (λ x. exists_by_path true x files) none (before ++ (regular p t ∷ after)))
      ≡ true
scan-unnamed cfg cutoff files before after p t u h out =
    scan-listed cfg cutoff (λ x. exists_by_path true x files) before after p t
      (orphan_of_unnamed cfg cutoff files p t u h) out
