-- ===== src/License.antt =====
-- pkg/license: signed licences, their status at a time, and the watermark against clocks that are set
-- back. Times are nanoseconds, 0 is the zero time. Signatures and encodings are a parameter.
pub mod Status
pub mod Watermark
pub mod Enforce
pub mod Tools
use omni_blob.Base.{
  ℤ, pos, negsuc, ℕ, zero, suc, ◌+◌, ◌-◌, ◌*◌, ◌/◌, ◌%◌, ◌^◌, ◌≤◌, ◌<◌, String, ◌≡◌, refl, sym, ap,
  ◌∙◌, fun_ext, ◌≢◌, ◌↔◌, ◌⊎◌, inl, inr, Bool, true, false, ◌&&◌, ◌||◌, not, Option, none, some,
  List, [], ◌∷◌, ◌++◌, map, reverse, arith, ltb, leb, ◌==◌, if◌then◌else◌, ltb→lt, lt→ltb, leb→le,
  ==_iff, tests, Bool-cases, Option-cases, length, length-append, take, keep_if, any_of, all_of,
  head_of, All, Any, length-keep_if-le, keep_if-append, All-append, Text, codes, text_eq,
  text_eq_iff, text_eq_refl, text_eq-common, is_empty, or_else, has_prefix, has_prefix-append,
  has_prefix-common, has_prefix_self, has_prefix-map, trim_prefix, has_byte, contains,
  has_byte-append, drop_while, trim_if, is_space, trim_space, lower_byte, to_lower, cons_head,
  split_on, first_piece, digits_fuel, decimal, decimal-digits, contains_text, Assoc, lookup, insert,
  delete, lookup-insert, lookup-delete, is_digit, digits_value, digits_value-decimal,
}

pub record Entitlements : Type 0 where
  pub features : List Text
  pub quotas : Assoc ℕ
  pub tier : Text

pub record Payload : Type 0 where
  pub key_id : Text
  pub license_id : Text
  pub customer_id : Text
  pub deployment_id : Text
  pub issued_at : ℕ
  pub not_before : ℕ
  pub expires_at : ℕ
  pub grace_period_days : ℤ
  pub entitlements : Entitlements

pub record License : Type 0 where
  pub payload : Payload
  pub signature : Text

pub data LicenseError : Type 0 where
  invalid_signature clock_tampered marshal_failed write_failed read_failed : LicenseError

-- canonicaljson, crypto/ed25519 and encoding/base64. `public_of` gives the public key of a private
-- one; a signature verifies under it, and decoding undoes encoding.
pub record Crypto : Type 0 where
  pub marshal : Payload → Option Text
  pub sign : Text → Text → Text
  pub verify : Text → Text → Text → Bool
  pub public_of : Text → Text
  pub encode : Text → Text
  pub decode : Text → Option Text
  pub verify_sign : (key m : Text) → verify (public_of key) m (sign key m) ≡ true
  pub decode_encode : (t : Text) → decode (encode t) ≡ some t

unfoldable pub generate_license : Crypto → Payload → Text → Option License
generate_license c payload key = elim (c.marshal payload) [
  | none ↦ none
  | some m ↦ some (record { payload = payload; signature = c.encode (c.sign key m) })
]

unfoldable pub check_decoded : Crypto → Text → Text → Option Text → Option LicenseError
check_decoded c key m none = some invalid_signature
check_decoded c key m (some sig) = if c.verify key m sig then none else some invalid_signature

-- `none` where the signature is good.
unfoldable pub verify_signature : Crypto → License → Text → Option LicenseError
verify_signature c l key = elim (c.marshal l.payload) [
  | none ↦ some marshal_failed
  | some m ↦ check_decoded c key m (c.decode l.signature)
]

pub data LicenseStatus : Type 0 where
  valid grace_period expired clock_tampered_status : LicenseStatus

-- AddDate(0, 0, days) in a zone of fixed offset.
abbrev pub day : ℕ
day = 86400 * 1000000000

abbrev pub days_of : ℤ → ℕ
days_of (pos n) = n
days_of (negsuc n) = 0

-- The grace period is only looked at after the expiry, where a negative number of days has passed as
-- none has.
abbrev pub grace_end : Payload → ℕ
grace_end p = p.expires_at + days_of p.grace_period_days * day

unfoldable pub check_status : Payload → ℕ → ℕ → LicenseStatus
check_status p current last_seen =
    if ltb 0 last_seen && ltb current last_seen
    then clock_tampered_status
    else if ltb current p.not_before
    then expired
    else if ltb p.expires_at current
    then (if ltb (grace_end p) current then expired else grace_period)
    else valid

-- A licence that is generated with a key verifies under that key's public one.
pub verify_signature-generate :
    (c : Crypto) (payload : Payload) (key : Text) (l : License)
    → generate_license c payload key ≡ some l
    → (l.payload ≡ payload) × (verify_signature c l (c.public_of key) ≡ none)
unfolding generate_license verify_signature check_decoded
verify_signature-generate c payload key l e = elim (Option-cases (c.marshal payload)) [
  | inl n ↦ absurd (ground arith)
  | inr (m, n) ↦ (ground arith, ground (arith, c.decode_encode (c.sign key m), c.verify_sign key m))
]
