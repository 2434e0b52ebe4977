-- ===== src/Examples/Licences.antt =====
-- Concrete runs of the licences (pkg/license, cmd/file-sync/license_check.go and
-- cmd/license-verify/main.go).
use omni_blob.Base.{
  pos, ℕ, zero, suc, ◌∷◌, ◌+◌, ◌*◌, ◌≤◌, ◌≡◌, refl, ◌↔◌, inl, true, none, some, [], ◌++◌, arith,
  Text, codes, text_eq, text_eq_refl,
}
use omni_blob.License.{Payload, License, Crypto, generate_license, verify_signature, grace_end, day}
use omni_blob.License.Watermark.{stored}
use omni_blob.License.Tools.{
  Codec, load_license, key_of, hex_decode, private_key_size, gen_payload, license_gen,
}
use omni_blob.License.Tools
use omni_blob.License.Tools.Issued.{license_gen-IsTier}
use omni_blob.License.Enforce.{
  no_license, some_license, no_trial, first_run, Files, tier, enforce_licensing, NotRewound, IsTier,
  enforce_licensing-licensed_iff, enforce_licensing-trial_iff,
}

abbrev pub payload : Payload
payload = record {
  key_id = codes "k1";
  license_id = codes "L-1";
  customer_id = codes "pwni";
  deployment_id = codes "d1";
  issued_at = 10;
  not_before = 20;
  expires_at = 100;
  grace_period_days = pos 7;
  entitlements = record { features = []; quotas = []; tier = codes "PRO" };
}

-- A signature scheme that puts the key before the text.
abbrev pub crypto : Crypto
crypto = record {
  marshal = λ p. some p.license_id;
  sign = λ key m. key ++ m;
  verify = λ key m sig. text_eq sig (key ++ m);
  public_of = λ key. key;
  encode = λ t. t;
  decode = λ t. some t;
  verify_sign = λ key m. text_eq_refl (key ++ m);
  decode_encode = λ t. refl;
}

abbrev pub key : Text
key = codes "secret"

abbrev pub license : License
license = record { payload = payload; signature = codes "secretL-1" }

generated : generate_license crypto payload key ≡ some license
unfolding generate_license
generated = refl

abbrev pub licensed_files : Files
licensed_files = record { watermark = stored 60; license = some_license license; trial = no_trial }

enforce_licensing-licensed_iff_example :
    IsTier (enforce_licensing crypto key (λ t. t + 90 * day) true 70 licensed_files).1 ↔ (
      NotRewound (stored 60) 70
      × (verify_signature crypto license key ≡ none)
      × (20 ≤ 70)
      × (70 ≤ grace_end payload))
enforce_licensing-licensed_iff_example =
    enforce_licensing-licensed_iff crypto key (λ t. t + 90 * day) true 70 licensed_files license
      refl

abbrev trial_files : Files
trial_files = record { watermark = stored 60; license = no_license; trial = first_run 5 }

enforce_licensing-trial_iff_example :
    (((enforce_licensing crypto key (λ t. t + 90) true 70 trial_files).1 ≡ tier (codes "TRIAL"))
      ↔ (70 ≤ 5 + 90))
    × ((enforce_licensing crypto key (λ t. t + 90) true 70 trial_files).0.trial ≡ first_run 5)
enforce_licensing-trial_iff_example =
    enforce_licensing-trial_iff crypto key (λ t. t + 90) 70 trial_files 5 refl (inl refl)
      (λ w e. ground (arith, e))

abbrev repeated : ℕ → ℕ → Text
repeated zero c = []
repeated (suc n) c = c ∷ repeated n c

abbrev no_key : Text
no_key = repeated 64 0

abbrev year : ℕ → ℕ
year t = t + 365 * day

abbrev issued : License
issued = record { payload = gen_payload year 1500000000; signature = no_key ++ codes "lic-001" }

abbrev codec : Codec
codec = record { write = λ l. some (codes "{}"); read = λ t. some issued }

no_key_decoded : key_of private_key_size (repeated 128 b'0') ≡ Tools.key no_key
unfolding key_of hex_decode
no_key_decoded = refl

license_gen-IsTier_example :
    IsTier
      (enforce_licensing crypto no_key
        (λ t. t)
        true
        (2 * day)
        (record licensed_files {
          license =
              load_license codec
                (license_gen crypto codec year true 1500000000 (repeated 128 b'0') none).0;
        })).1
unfolding generate_license gen_payload
license_gen-IsTier_example =
    license_gen-IsTier crypto codec year (λ t. t) true 1500000000 (2 * day) (repeated 128 b'0')
      no_key issued (codes "{}") none licensed_files no_key_decoded refl refl refl
      (λ w e. ground arith) (omega arith) (omega arith)
