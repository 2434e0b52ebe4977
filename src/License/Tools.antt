-- ===== src/License/Tools.antt =====
-- cmd/license-gen/main.go and cmd/license-verify/main.go, with SaveLicense and LoadLicense of
-- pkg/license/license.go. The JSON of a licence file is a parameter.
pub mod Issued
use omni_blob.Base.{
  ℕ, zero, suc, ◌+◌, ◌-◌, ◌*◌, ◌/◌, ◌%◌, ◌^◌, ◌≤◌, ◌<◌, String, ◌≡◌, refl, sym, ap, ◌∙◌, fun_ext,
  ◌≢◌, ◌↔◌, ◌⊎◌, inl, inr, Bool, true, false, ◌&&◌, ◌||◌, not, Option, none, some, List, [], ◌∷◌,
  ◌++◌, map, reverse, arith, ltb, leb, ◌==◌, if◌then◌else◌, ltb→lt, lt→ltb, leb→le, ==_iff, tests,
  Bool-cases, Option-cases, length, length-append, take, keep_if, any_of, all_of, head_of, All, Any,
  length-keep_if-le, keep_if-append, All-append, Text, codes, text_eq, text_eq_iff, text_eq_refl,
  text_eq-common, is_empty, or_else, has_prefix, has_prefix-append, has_prefix-common,
  has_prefix_self, has_prefix-map, trim_prefix, has_byte, contains, has_byte-append, drop_while,
  trim_if, is_space, trim_space, lower_byte, to_lower, cons_head, split_on, first_piece, cons_cut,
  cut, digits_fuel, decimal, decimal-digits, decimal-given, contains_text, Assoc, lookup, insert,
  delete, lookup-insert, lookup-delete, delete-insert, is_digit, digits_value, digits_value-decimal,
  ℤ, negate, is_positive, magnitude, signed_within, atoi, pos, negsuc,
}
use omni_blob.License.{
  Payload, License, Crypto, LicenseError, LicenseStatus, generate_license, verify_signature,
}
use omni_blob.License.Watermark.{WatermarkFile}
use omni_blob.License.Enforce.{LicenseFile, no_license, broken_license, some_license, verify_status}

-- encoding/json on licences.
pub record Codec : Type 0 where
  pub write : License → Option Text
  pub read : Text → Option License

-- SaveLicense: the file afterwards, and whether it was written.
unfoldable pub save_license : Codec → Bool → License → Option Text → Option Text × Bool
save_license codec writable l file = elim (codec.write l) [
  | none ↦ (file, false)
  | some t ↦ if writable then (some t, true) else (file, false)
]

-- LoadLicense, on the bytes of the file, `none` if there is none.
unfoldable pub load_license : Codec → Option Text → LicenseFile
load_license codec none = no_license
load_license codec (some t) = elim (codec.read t) [
  | none ↦ broken_license
  | some l ↦ some_license l
]

-- encoding/hex
unfoldable pub hex_value : ℕ → Option ℕ
hex_value c =
    if is_digit c
    then some (c - b'0')
    else if leb b'a' c && leb c b'f'
    then some (c - b'a' + 10)
    else if leb b'A' c && leb c b'F'
    then some (c - b'A' + 10)
    else none

abbrev pub cons_byte : Option ℕ → Option ℕ → Option Text → Option Text
cons_byte (some a) (some b) (some t) = some ((a * 16 + b) ∷ t)
cons_byte a b t = none

unfoldable pub hex_decode : Text → Option Text
unfolding hex_value
hex_decode [] = some []
hex_decode (a ∷ []) = none
hex_decode (a ∷ b ∷ s) = cons_byte (hex_value a) (hex_value b) (hex_decode s)

abbrev pub private_key_size : ℕ
private_key_size = 64

abbrev pub public_key_size : ℕ
public_key_size = 32

-- How the commands end before they have a key.
pub data KeyError : Type 0 where
  no_key malformed_key wrong_size : KeyError

pub data Key : Type 0 where
  key_error : KeyError → Key
  key : Text → Key

abbrev pub sized : ℕ → Option Text → Key
sized n none = key_error malformed_key
sized n (some k) = if length k == n then key k else key_error wrong_size

unfoldable pub key_of : ℕ → Text → Key
unfolding hex_decode
key_of n given = if is_empty given then key_error no_key else sized n (hex_decode given)

abbrev pub second : ℕ
second = 1000000000

abbrev pub truncated : ℕ → ℕ
truncated now = now / second * second

-- The payload of license-gen; `next_year` is AddDate(1, 0, 0).
unfoldable pub gen_payload : (ℕ → ℕ) → ℕ → Payload
gen_payload next_year now = record {
  key_id = codes "master-key-01";
  license_id = codes "lic-001";
  customer_id = codes "cust-omni-01";
  deployment_id = codes "dep-cloud-01";
  issued_at = truncated now;
  not_before = truncated now;
  expires_at = next_year (truncated now);
  grace_period_days = pos 14;
  entitlements = record {
    features = codes "advanced_analytics" ∷ codes "sso" ∷ [];
    quotas = (codes "max_users", 50) ∷ [];
    tier = codes "professional";
  };
}

pub data GenResult : Type 0 where
  gen_key_error : KeyError → GenResult
  not_generated not_saved generated : GenResult

abbrev pub saved_result : Option Text × Bool → Option Text × GenResult
saved_result (file, true) = (file, generated)
saved_result (file, false) = (file, not_saved)

abbrev pub save_generated : Codec → Bool → Option License → Option Text → Option Text × GenResult
save_generated codec writable none file = (file, not_generated)
save_generated codec writable (some l) file = saved_result (save_license codec writable l file)

abbrev pub gen_with :
    Crypto → Codec → (ℕ → ℕ) → Bool → ℕ → Key → Option Text → Option Text × GenResult
gen_with c codec next_year writable now (key_error e) file = (file, gen_key_error e)
gen_with c codec next_year writable now (key k) file =
    save_generated codec writable (generate_license c (gen_payload next_year now) k) file

-- license-gen, on the file that it writes.
unfoldable pub license_gen :
    Crypto → Codec → (ℕ → ℕ) → Bool → ℕ → Text → Option Text → Option Text × GenResult
unfolding key_of gen_payload save_license
license_gen c codec next_year writable now key_hex file =
    gen_with c codec next_year writable now (key_of private_key_size key_hex) file

pub data VerifyResult : Type 0 where
  verify_key_error : KeyError → VerifyResult
  not_loaded : VerifyResult
  refused : LicenseError → VerifyResult
  status : LicenseStatus → VerifyResult

abbrev pub verified :
    Bool → License → WatermarkFile → ℕ → ℕ → Option LicenseError → WatermarkFile × VerifyResult
verified writable l wm now hour (some e) = (wm, refused e)
verified writable l wm now hour none =
    let (wm', st) = verify_status writable l wm now hour in (wm', status st)

abbrev pub verify_loaded :
    Crypto → Bool → ℕ → ℕ → Text → LicenseFile → WatermarkFile → WatermarkFile × VerifyResult
verify_loaded c writable now hour k (some_license l) wm =
    verified writable l wm now hour (verify_signature c l k)
verify_loaded c writable now hour k f wm = (wm, not_loaded)

abbrev pub verify_with :
    Crypto → Codec → Bool → ℕ → ℕ → Key → Option Text → WatermarkFile → WatermarkFile × VerifyResult
verify_with c codec writable now hour (key_error e) file wm = (wm, verify_key_error e)
verify_with c codec writable now hour (key k) file wm =
    verify_loaded c writable now hour k (load_license codec file) wm

-- license-verify
unfoldable pub license_verify :
    Crypto
    → Codec
    → Bool
    → ℕ
    → ℕ
    → Text
    → Option Text
    → WatermarkFile
    → WatermarkFile × VerifyResult
unfolding key_of load_license
license_verify c codec writable now hour pub_hex file wm =
    verify_with c codec writable now hour (key_of public_key_size pub_hex) file wm
