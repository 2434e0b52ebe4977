-- ===== src/Presign.antt =====
-- internal/auth/presign.go: URLs that are signed with a shared secret. Parsing and encoding of URLs
-- and HMAC-SHA256 are parameters.
pub mod Valid
use omni_blob.Base.{
  ℕ, zero, suc, ◌+◌, ◌-◌, ◌*◌, ◌/◌, ◌%◌, ◌^◌, ◌≤◌, ◌<◌, String, ◌≡◌, refl, sym, ap, ◌∙◌, fun_ext,
  ◌≢◌, ◌↔◌, ◌⊎◌, inl, inr, Bool, true, false, ◌&&◌, ◌||◌, not, Option, none, some, List, [], ◌∷◌,
  ◌++◌, map, reverse, arith, ltb, leb, ◌==◌, if◌then◌else◌, ltb→lt, lt→ltb, leb→le, ==_iff, tests,
  Bool-cases, Option-cases, length, length-append, take, keep_if, any_of, all_of, head_of, All, Any,
  length-keep_if-le, keep_if-append, All-append, Text, codes, text_eq, text_eq_iff, text_eq_refl,
  text_eq-common, is_empty, or_else, has_prefix, has_prefix-append, has_prefix-common,
  has_prefix_self, has_prefix-map, trim_prefix, has_byte, contains, has_byte-append, drop_while,
  trim_if, is_space, trim_space, lower_byte, to_lower, cons_head, split_on, first_piece,
  digits_fuel, decimal, decimal-digits, decimal-given, contains_text, Assoc, lookup, insert, delete,
  lookup-insert, lookup-delete, is_digit, digits_value, digits_value-decimal,
}
use omni_blob.Api.Handler.{Parsed, number, negative, not_number, parse_int}
use omni_blob.Http.{or_blank}

pub record UrlLibrary : Type 0 where
  pub parse : Text → Option (Text × Assoc Text)
  pub encode : Assoc Text → Text
  pub hmac : Text → Text → Text
  pub format_date : ℕ → Text

-- A URL: its path and its query.
pub record Url : Type 0 where
  pub path : Text
  pub query : Assoc Text

unfoldable pub string_to_sign : UrlLibrary → Text → Text → Assoc Text → Text
string_to_sign lib method path query = method ++ (b'\n' ∷ (path ++ (b'\n' ∷ lib.encode query)))

-- The query that is signed; times are in seconds.
unfoldable pub signed_query : UrlLibrary → ℕ → ℕ → Text → Assoc Text → Assoc Text
signed_query lib now expiry access_key query = insert (codes "Expires") (decimal (now + expiry)) (
    insert (codes "X-Amz-Expires") (decimal expiry) (
      insert (codes "X-Amz-Date") (lib.format_date now) (
        insert (codes "X-Amz-Credential") access_key
          (insert (codes "X-Amz-Algorithm") (codes "HMAC-SHA256") query))))

abbrev pub signature_key : Text
signature_key = codes "X-Amz-Signature"

-- GeneratePresignedURL
unfoldable pub generate_presigned_url :
    UrlLibrary → ℕ → Text → Text → Text → Text → Text → ℕ → Option Url
unfolding signed_query string_to_sign
generate_presigned_url lib now method base path access_key secret expiry =
    elim (lib.parse (base ++ path)) [
      | none ↦ none
      | some (p, query) ↦
          let q = signed_query lib now expiry access_key query in
          some (record {
            path = p;
            query = insert signature_key (lib.hmac secret (string_to_sign lib method p q)) q;
          })
    ]

-- ValidatePresignedURL, on the method, path and query of the request.
unfoldable pub validate_presigned_url : UrlLibrary → ℕ → Text → Text → Url → Bool
unfolding string_to_sign
validate_presigned_url lib now secret method url =
    let signature = or_blank (lookup signature_key url.query) in
    let expected =
      lib.hmac secret (string_to_sign lib method url.path (delete signature_key url.query)) in
    if is_empty signature
    then false
    else elim (parse_int (or_blank (lookup (codes "Expires") url.query))) [
      | not_number ↦ false
      | negative ↦ false
      | number n ↦ if ltb n now then false else text_eq signature expected
    ]
