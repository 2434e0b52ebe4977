-- ===== src/Api/Explorer/Traversal.antt =====
-- internal/api/explorer_handler.go: which directory a request is answered from.
use omni_blob.Base.{
  ℕ, ◌≡◌, refl, ap, true, Option, some, List, [], ◌∷◌, ◌++◌, arith, if◌then◌else◌, All, All-append,
  Text, codes, text_eq, or_else, has_prefix, has_prefix-map, lower_byte, to_lower,
}
use omni_blob.Config.{StorageConfig}
use omni_blob.FilePath.{slash, clean, join, is_abs, elements, finish}
use omni_blob.FilePath.Inside.{
  IsPlain, clean_rooted, elements-IsPlain, join-clean, clean-finish, finish-prefix,
}
use omni_blob.Api.Explorer.{
  FileNode, ReadDir, abs_path, base_path, list_inside, list_directory, legacy_listing,
  virtual_listing,
}

-- The directory that is read for a request: the elements of the base, then those of the request,
-- none of which is "..".
abbrev pub inside : Text → Text → Text
inside b path = finish true (elements (slash ∷ b) ++ elements (slash ∷ or_else path (slash ∷ [])))

abs_finish :
    (cwd : Option Text) (ws : List Text)
    → All IsPlain ws
    → abs_path cwd (finish true ws) ≡ some (finish true ws)
unfolding abs_path is_abs finish
abs_finish cwd ws p = ap some (clean-finish ws p)

abs_base : (cwd : Option Text) (b : Text) → abs_path cwd (slash ∷ b) ≡ some (clean (slash ∷ b))
unfolding abs_path is_abs
abs_base cwd b = refl

abs_joined :
    (cwd : Option Text) (b s : Text)
    → abs_path cwd (join ((slash ∷ b) ∷ clean (slash ∷ s) ∷ []))
      ≡ some (finish true (elements (slash ∷ b) ++ elements (slash ∷ s)))
abs_joined cwd b s = rw (join-clean b s) (
    abs_finish cwd (elements (slash ∷ b) ++ elements (slash ∷ s)) (
      All-append IsPlain (elements (slash ∷ b)) (elements (slash ∷ s)) (elements-IsPlain b)
        (elements-IsPlain s)))

not_forbidden :
    (read_dir : Text → ReadDir) (virtual : Text → Option (List FileNode)) (now : ℕ)
    (target req clean_req base full : Text)
    → has_prefix full base ≡ true
    → list_inside read_dir virtual now target req clean_req base full ≡ (
        if text_eq target (codes "omniblob")
        then virtual_listing req now (virtual req)
        else legacy_listing clean_req (read_dir full))
unfolding list_inside to_lower
not_forbidden read_dir virtual now target req clean_req base full h =
    ground (arith, has_prefix-map lower_byte full base h)

-- With an absolute base directory every request, whatever its path, is answered from the directory
-- `inside` the base, with the elements of the base followed by those of the cleaned path, none of
-- which is ".."; a request for "omniblob" is answered from the records.
pub list_directory-inside :
    (cfg : StorageConfig) (cwd : Option Text) (read_dir : Text → ReadDir)
    (virtual : Text → Option (List FileNode)) (now : ℕ) (target path b : Text)
    → base_path cfg target ≡ some (slash ∷ b)
    → (list_directory cfg cwd read_dir virtual now target path ≡ (
        if text_eq target (codes "omniblob")
        then virtual_listing (or_else path (slash ∷ [])) now (virtual (or_else path (slash ∷ [])))
        else legacy_listing (clean (slash ∷ or_else path (slash ∷ []))) (read_dir (inside b path))))
      × All IsPlain (elements (slash ∷ or_else path (slash ∷ [])))
unfolding list_directory
list_directory-inside cfg cwd read_dir virtual now target path b e =
    let req : Text = or_else path (slash ∷ []) in
    (
      rw (e, list_directory, abs_base cwd b, abs_joined cwd b req)
          (not_forbidden read_dir virtual now target req (clean (slash ∷ req)) (clean (slash ∷ b))
            (inside b path)
            (rw (clean_rooted b) (finish-prefix (elements (slash ∷ b)) (elements (slash ∷ req))))),
      elements-IsPlain req,
    )
