-- ===== src/Api/Handler/Checks.antt =====
-- internal/api/handler.go, Upload: which files pass the checks.
use omni_blob.Base.{
  ℕ, suc, ◌≡◌, refl, ◌↔◌, ◌⊎◌, inl, inr, Bool, true, false, ◌&&◌, not, Option, none, some, List, [],
  ◌∷◌, arith, leb, if◌then◌else◌, Bool-cases, length, take, Text, codes, text_eq, text_eq_iff,
  contains, contains_text, lookup,
}
use omni_blob.Api.Handler.{Handler, Env}
use omni_blob.Api.Handler.Upload.{
  Part, check_content, check_part, mismatch, expected_mime_prefix, extension_of,
}

-- The bytes that are looked at are of the type that the extension promises, and of no HTML but for
-- ".html".
abbrev pub IsGenuine : Env → Part → Type 0
IsGenuine env part =
    let found = env.detect_content_type (take 512 part.content.bytes) in
    (part.rewinds ≡ true)
    × (mismatch (lookup (extension_of part) expected_mime_prefix) found ≡ false)
    × ((extension_of part ≡ codes ".html") ⊎ (contains found (codes "text/html") ≡ false))

content_test : Bool → Bool → Bool → Bool → Option ℕ
content_test rewinds wrong html script =
    if not rewinds
    then some 500
    else if wrong
    then some 415
    else if not html && script
    then some 415
    else none

content_test-none :
    (rewinds wrong html script : Bool)
    → content_test rewinds wrong html script ≡ none
    → (rewinds ≡ true) × (wrong ≡ false) × ((html ≡ true) ⊎ (script ≡ false))
unfolding content_test
content_test-none true true html script e = absurd (ground arith)
content_test-none true false true script e = (refl, refl, inl refl)
content_test-none true false false true e = absurd (ground arith)
content_test-none true false false false e = (refl, refl, inr refl)
content_test-none false wrong html script e = absurd (ground arith)

none-content_test :
    (wrong html script : Bool)
    → wrong ≡ false
    → (html ≡ true) ⊎ (script ≡ false)
    → content_test true wrong html script ≡ none
unfolding content_test
none-content_test wrong html script w (inl h) = rw (w, h) refl
none-content_test wrong true script w (inr s) = rw w refl
none-content_test wrong false script w (inr s) = rw (w, s) refl

module _ (env : Env) (part : Part) where
  abbrev found : Text
  found = env.detect_content_type (take 512 part.content.bytes)

  abbrev wrong_type : Bool
  wrong_type = mismatch (lookup (extension_of part) expected_mime_prefix) found

  abbrev is_html : Bool
  is_html = text_eq (extension_of part) (codes ".html")

  IsGenuine-of_check : check_content env (extension_of part) part ≡ none → IsGenuine env part
  unfolding check_content content_test
  IsGenuine-of_check e =
      let (again, right, safe) =
        content_test-none part.rewinds wrong_type is_html (contains found (codes "text/html")) e in
      (
        again,
        right,
        elim safe [
          | inl html ↦ inl ((text_eq_iff (extension_of part) (codes ".html")).0 html)
          | inr clear ↦ inr clear
        ],
      )

  check_of_genuine : IsGenuine env part → check_content env (extension_of part) part ≡ none
  unfolding check_content content_test
  check_of_genuine (again, right, safe) = rw again (
      none-content_test wrong_type is_html (contains found (codes "text/html")) right (elim safe [
        | inl html ↦ inl ((text_eq_iff (extension_of part) (codes ".html")).1 html)
        | inr clear ↦ inr clear
      ]))

  check_listed :
      (xs : List Text)
      → ((if leb (length xs) 0
            then none
            else if not (contains_text xs (extension_of part))
            then some 415
            else check_content env (extension_of part) part)
          ≡ none)
        ↔ ((xs ≡ []) ⊎ ((contains_text xs (extension_of part) ≡ true) × IsGenuine env part))
  check_listed [] = (λ e. inl refl, λ e. refl)
  check_listed (x ∷ xs) =
      let some_given : leb (suc (length xs)) 0 ≡ false = ground arith in
      elim (Bool-cases (contains_text (x ∷ xs) (extension_of part))) [
        | inl listed ↦
            rw (some_given, listed)
              (
                λ e. inr (refl, IsGenuine-of_check e),
                λ s. elim s [ inl e ↦ absurd (ground arith) | inr (l, g) ↦ check_of_genuine g ],
              )
        | inr other ↦
            rw (some_given, other)
              (
                λ e. absurd (ground arith),
                λ s. elim s [ inl e ↦ absurd (ground arith) | inr (l, g) ↦ absurd (ground arith) ],
              )
      ]

-- The checks of Upload let a file pass when no extension is configured, or when its extension is
-- one of the configured, the content can be read again, its detected type begins as the extension
-- promises, and it is not HTML under another extension; and they refuse any other.
pub check_part-passes_iff :
    (h : Handler) (env : Env) (part : Part)
    → (check_part h env part ≡ none) ↔ (
        (h.allowed_extensions ≡ [])
        ⊎ ((contains_text h.allowed_extensions (extension_of part) ≡ true) × IsGenuine env part))
unfolding check_part
check_part-passes_iff h env part = check_listed env part h.allowed_extensions
