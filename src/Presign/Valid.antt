-- ===== src/Presign/Valid.antt =====
-- internal/auth/presign.go: which signed URLs are accepted, and that those it makes are.
use omni_blob.Base.{
  ℕ, ◌+◌, ◌^◌, ◌≤◌, ◌<◌, ◌≡◌, refl, sym, ap, ◌∙◌, ◌↔◌, inl, inr, Bool, true, false, none, some,
  ◌++◌, arith, ltb, if◌then◌else◌, Bool-cases, Text, codes, text_eq, text_eq_iff, text_eq_refl,
  is_empty, decimal, Assoc, lookup, insert, delete, lookup-insert, delete-insert,
}
use omni_blob.Http.{or_blank}
use omni_blob.Api.Handler.{Parsed, number, negative, not_number, parse_int}
use omni_blob.Api.Handler.Urls.{parse_int-decimal}
use omni_blob.Presign.{
  UrlLibrary, Url, string_to_sign, signed_query, signature_key, generate_presigned_url,
  validate_presigned_url,
}

-- The signature is that of the method, the path and the other parameters under the secret, and the
-- time that they name is not over.
abbrev pub IsSigned : UrlLibrary → ℕ → Text → Text → Url → Type 0
IsSigned lib now secret method url =
    let signature = or_blank (lookup signature_key url.query) in
    (is_empty signature ≡ false)
    × ((n : ℕ) × (parse_int (or_blank (lookup (codes "Expires") url.query)) ≡ number n) × (now ≤ n))
    × (signature
        ≡ lib.hmac secret (string_to_sign lib method url.path (delete signature_key url.query)))

judge : ℕ → Text → Text → Parsed → Bool
judge now signature expected not_number = false
judge now signature expected negative = false
judge now signature expected (number n) = if ltb n now then false else text_eq signature expected

judged :
    (now : ℕ) (signature expected : Text) (p : Parsed)
    → judge now signature expected p ≡ true
    → ((n : ℕ) × (p ≡ number n) × (now ≤ n)) × (signature ≡ expected)
unfolding judge
judged now signature expected not_number e = absurd (ground arith)
judged now signature expected negative e = absurd (ground arith)
judged now signature expected (number n) e =
    ((n, refl, ground (arith, e)), (text_eq_iff signature expected).0 (ground (arith, e)))

judge-timely :
    (now n : ℕ) (signature expected : Text)
    → now ≤ n
    → signature ≡ expected
    → judge now signature expected (number n) ≡ true
unfolding judge
judge-timely now n signature expected h e = ground (arith, (text_eq_iff signature expected).1 e)

module _ (lib : UrlLibrary) (now : ℕ) (secret method : Text) (url : Url) where
  abbrev signature : Text
  signature = or_blank (lookup signature_key url.query)

  abbrev expected : Text
  expected = lib.hmac secret (string_to_sign lib method url.path (delete signature_key url.query))

  abbrev expires : Parsed
  expires = parse_int (or_blank (lookup (codes "Expires") url.query))

  validate-judge :
      validate_presigned_url lib now secret method url
      ≡ (if is_empty signature then false else judge now signature expected expires)
  unfolding validate_presigned_url judge string_to_sign
  validate-judge = ap (λ x. if is_empty signature then false else x) (by_cases expires)
    where
      by_cases :
          (p : Parsed)
          → (elim p [
            | not_number ↦ false
            | negative ↦ false
            | number n ↦ if ltb n now then false else text_eq signature expected
          ])
            ≡ judge now signature expected p
      by_cases not_number = refl
      by_cases negative = refl
      by_cases (number n) = refl

  -- A request is accepted exactly when it carries a signature that is the HMAC of its method, its
  -- path and its other parameters under the secret, and the time of expiry that it names is not
  -- over.
  pub validate_presigned_url-true_iff :
      (validate_presigned_url lib now secret method url ≡ true) ↔ IsSigned lib now secret method url
  validate_presigned_url-true_iff = (
    λ e.
        let k = sym validate-judge ∙ e in
        elim (Bool-cases (is_empty signature)) [
          | inl blank ↦ absurd (ground (arith, k, blank))
          | inr given ↦
              let (timely, same) = judged now signature expected expires (rw given at k) in
              (given, timely, same)
        ],
    λ x.
        let (given, (n, number_n, h), same) = x in
        validate-judge
        ∙ rw given (
            ap (judge now signature expected) number_n
            ∙ judge-timely now n signature expected h same),
  )

still_none :
    (k j v : Text) (m : Assoc Text)
    → text_eq k j ≡ false
    → lookup j m ≡ none
    → lookup j (insert k v m) ≡ none
still_none k j v m apart h = lookup-insert k j v m ∙ rw apart h

unsigned :
    (lib : UrlLibrary) (now expiry : ℕ) (access_key : Text) (query : Assoc Text)
    → lookup signature_key query ≡ none
    → lookup signature_key (signed_query lib now expiry access_key query) ≡ none
unfolding signed_query text_eq
unsigned lib now expiry access_key query h = still_none _ _ _ _ refl (
    still_none _ _ _ _ refl
      (still_none _ _ _ _ refl (still_none _ _ _ _ refl (still_none _ _ _ _ refl h))))

expires_of :
    (lib : UrlLibrary) (now expiry : ℕ) (access_key signature : Text) (query : Assoc Text)
    → lookup
        (codes "Expires")
        (insert signature_key signature (signed_query lib now expiry access_key query))
      ≡ some (decimal (now + expiry))
unfolding signed_query text_eq
expires_of lib now expiry access_key signature query =
    let q = signed_query lib now expiry access_key query in
    lookup-insert signature_key (codes "Expires") signature q
    ∙ lookup-insert (codes "Expires") (codes "Expires") (decimal (now + expiry)) (
        insert (codes "X-Amz-Expires") (decimal expiry) (
          insert (codes "X-Amz-Date") (lib.format_date now) (
            insert (codes "X-Amz-Credential") access_key
              (insert (codes "X-Amz-Algorithm") (codes "HMAC-SHA256") query))))

-- A URL that is signed is accepted, with the same secret and method, until its time is over,
-- provided that the base parses and brings no signature of its own, that an HMAC is not empty, and
-- that the end of the time fits in 63 bits.
pub generate-validate :
    (lib : UrlLibrary) (now later expiry : ℕ) (method base path access_key secret : Text) (p : Text)
    (query : Assoc Text)
    → lib.parse (base ++ path) ≡ some (p, query)
    → lookup signature_key query ≡ none
    → ((k t : Text) → is_empty (lib.hmac k t) ≡ false)
    → later ≤ now + expiry
    → now + expiry < 2 ^ 63
    → (url : Url) × (generate_presigned_url lib now method base path access_key secret expiry
        ≡ some url)
      × (validate_presigned_url lib later secret method url ≡ true)
unfolding generate_presigned_url
generate-validate lib now later expiry method base path access_key secret p query parsed none_there
      given in_time small =
    let q = signed_query lib now expiry access_key query in
    let signature = lib.hmac secret (string_to_sign lib method p q) in
    let url : Url = record { path = p; query = insert signature_key signature q } in
    let signed : lookup signature_key url.query ≡ some signature =
      lookup-insert signature_key signature_key signature q
      ∙ rw (text_eq_refl signature_key) refl in
    let back : delete signature_key url.query ≡ q =
      delete-insert signature_key signature q
        (unsigned lib now expiry access_key query none_there) in
    (
      url,
      rw (parsed, generate_presigned_url) refl,
      (validate_presigned_url-true_iff lib later secret method url).1 (
        ap (λ o. is_empty (or_blank o)) signed ∙ given secret (string_to_sign lib method p q),
        (
          now + expiry,
          ap (λ o. parse_int (or_blank o)) (expires_of lib now expiry access_key signature query)
              ∙ parse_int-decimal (now + expiry) small,
          in_time,
        ),
        ap or_blank signed ∙ ap (λ t. lib.hmac secret (string_to_sign lib method p t)) (sym back),
      ),
    )
