-- ===== src/License/Tools/Issued.antt =====
-- cmd/license-gen/main.go: what the licence that it makes is good for.
use omni_blob.Base.{ℕ, ◌+◌, ◌*◌, ◌≤◌, ◌≡◌, refl, ap, ◌∙◌, Bool, true, Option, some, arith, Text}
use omni_blob.License.{License, Crypto, generate_license, verify_signature-generate, day, grace_end}
use omni_blob.License.Enforce.{
  Files, some_license, enforce_licensing, IsTier, NotRewound, enforce_licensing-licensed_iff,
}
use omni_blob.License.Tools.{
  Codec, save_license, load_license, key, key_of, private_key_size, truncated, gen_payload,
  generated, saved_result, license_gen,
}

-- The file holds the licence.
save_license-load :
    (codec : Codec) (l : License) (t : Text) (file : Option Text)
    → codec.write l ≡ some t
    → codec.read t ≡ some l
    → (save_license codec true l file ≡ (some t, true))
      × (load_license codec (some t) ≡ some_license l)
unfolding save_license load_license
save_license-load codec l t file e f = (rw (e, save_license) refl, rw (f, load_license) refl)

license_gen-file :
    (c : Crypto) (codec : Codec) (next_year : ℕ → ℕ) (now : ℕ) (key_hex k : Text) (l : License)
    (t : Text) (file : Option Text)
    → key_of private_key_size key_hex ≡ key k
    → generate_license c (gen_payload next_year now) k ≡ some l
    → codec.write l ≡ some t
    → codec.read t ≡ some l
    → license_gen c codec next_year true now key_hex file ≡ (some t, generated)
unfolding license_gen
license_gen-file c codec next_year now key_hex k l t file e g w u =
    rw (e, g) (ap saved_result (save_license-load codec l t file w u).0)

-- A licence file that license-gen writes lets the server start whose public key belongs to the key
-- it was given, from the time it was made up to the end of its grace period, 14 days after a year,
-- as long as the clock is not set back behind the watermark. It is assumed that the key is 64 bytes
-- in hexadecimal form, that the payload and the licence can be encoded and written, and that the
-- licence's JSON is read back.
pub license_gen-IsTier :
    (c : Crypto) (codec : Codec) (next_year three_months : ℕ → ℕ) (writable : Bool) (now later : ℕ)
    (key_hex k : Text) (l : License) (t : Text) (file : Option Text) (files : Files)
    → key_of private_key_size key_hex ≡ key k
    → generate_license c (gen_payload next_year now) k ≡ some l
    → codec.write l ≡ some t
    → codec.read t ≡ some l
    → NotRewound files.watermark later
    → now ≤ later
    → later ≤ next_year (truncated now) + 14 * day
    → IsTier
        (enforce_licensing c (c.public_of k) three_months writable later (record files {
          license = load_license codec (license_gen c codec next_year true now key_hex file).0;
        })).1
unfolding gen_payload
license_gen-IsTier c codec next_year three_months writable now later key_hex k l t file files e g w
      u n after before =
    let (same, good) = verify_signature-generate c (gen_payload next_year now) k l g in
    let there : load_license codec (license_gen c codec next_year true now key_hex file).0
        ≡ some_license l =
      ap (λ x. load_license codec x.0)
        (license_gen-file c codec next_year now key_hex k l t file e g w u)
      ∙ (save_license-load codec l t file w u).1 in
    (enforce_licensing-licensed_iff c (c.public_of k) three_months writable later _ l there).1 (
      n,
      good,
      omega (arith, after, ap (λ p. p.not_before) same),
      omega (arith, before, ap grace_end same),
    )
