-- ===== src/License/Enforce.antt =====
-- cmd/file-sync/license_check.go and cmd/license-verify/main.go: what is decided from the licence, the
-- watermark and the trial file. The length of three months is a parameter.
use omni_blob.Base.{
  ℕ, ◌+◌, ◌≤◌, ◌<◌, ◌≡◌, refl, ◌≢◌, ◌↔◌, ◌⊎◌, inl, inr, Bool, true, false, Option, none, some,
  arith, ltb, if◌then◌else◌, Bool-cases, Option-cases, Text, codes, or_else,
}
use omni_blob.License.{
  Crypto, License, LicenseError, LicenseStatus, expired, clock_tampered_status, check_status,
  verify_signature, clock_tampered, grace_end,
}
use omni_blob.License.Watermark.{WatermarkFile, stored, update_watermark, get_watermark}

pub data LicenseFile : Type 0 where
  no_license : LicenseFile
  broken_license : LicenseFile
  some_license : License → LicenseFile

pub data TrialFile : Type 0 where
  no_trial : TrialFile
  unreadable_trial : TrialFile
  corrupt_trial : TrialFile
  first_run : ℕ → TrialFile

pub data Decision : Type 0 where
  tampered_halt unread_license bad_signature license_expired : Decision
  trial_unread trial_corrupt trial_expired : Decision
  tier : Text → Decision

pub record Files : Type 0 where
  pub watermark : WatermarkFile
  pub license : LicenseFile
  pub trial : TrialFile

unfoldable pub decide_status : License → LicenseStatus → Decision
decide_status l expired = license_expired
decide_status l other = tier (or_else l.payload.entitlements.tier (codes "ENTERPRISE"))

unfoldable pub decide_license : Crypto → Text → ℕ → WatermarkFile → License → Decision
unfolding decide_status
decide_license c key now wm l = elim (verify_signature c l key) [
  | some e ↦ bad_signature
  | none ↦ decide_status l (check_status l.payload now (get_watermark wm).0)
]

-- The trial file, written at the first run if it can be, and the verdict.
unfoldable pub decide_trial : (ℕ → ℕ) → Bool → ℕ → TrialFile → TrialFile × Decision
decide_trial three_months writable now unreadable_trial = (unreadable_trial, trial_unread)
decide_trial three_months writable now corrupt_trial = (corrupt_trial, trial_corrupt)
decide_trial three_months writable now no_trial = (
  if writable then first_run now else no_trial,
  if ltb (three_months now) now then trial_expired else tier (codes "TRIAL"),
)
decide_trial three_months writable now (first_run t) =
    (first_run t, if ltb (three_months t) now then trial_expired else tier (codes "TRIAL"))

unfoldable pub decide_files : Crypto → Text → (ℕ → ℕ) → Bool → ℕ → Files → Files × Decision
unfolding decide_license decide_trial
decide_files c key three_months writable now f = elim f.license [
  | some_license l ↦ (f, decide_license c key now f.watermark l)
  | broken_license ↦ (f, unread_license)
  | no_license ↦
      let (t, d) = decide_trial three_months writable now f.trial in (record f { trial = t }, d)
]

abbrev is_tampered : Option LicenseError → Bool
is_tampered (some clock_tampered) = true
is_tampered _ = false

unfoldable pub enforce_licensing : Crypto → Text → (ℕ → ℕ) → Bool → ℕ → Files → Files × Decision
enforce_licensing c key three_months writable now f =
    let (wm, e) = update_watermark writable f.watermark now in
    if is_tampered e
    then (record f { watermark = wm }, tampered_halt)
    else decide_files c key three_months writable now (record f { watermark = wm })

watermark_not_late :
    (writable : Bool) (f : WatermarkFile) (now : ℕ)
    → is_tampered (update_watermark writable f now).1 ≡ false
    → (get_watermark (update_watermark writable f now).0).0 ≤ now
unfolding update_watermark get_watermark
watermark_not_late writable (stored w) now h = ground arith
watermark_not_late writable _ now h = ground arith

-- The clock is not behind the time in the file.
abbrev pub NotRewound : WatermarkFile → ℕ → Type 0
NotRewound f now = (w : ℕ) → f ≡ stored w → w ≤ now

tampered_iff :
    (writable : Bool) (f : WatermarkFile) (now : ℕ)
    → (is_tampered (update_watermark writable f now).1 ≡ false) ↔ NotRewound f now
unfolding update_watermark
tampered_iff writable (stored w) now = (λ h v e. ground arith, λ h. ground (arith, h w refl))
tampered_iff writable _ now = (λ h v e. ground arith, λ h. ground arith)

abbrev pub IsTier : Decision → Type 0
IsTier d = (n : Text) × (d ≡ tier n)

decide_status-IsTier :
    (l : License) (st : LicenseStatus) → IsTier (decide_status l st) ↔ (st ≢ expired)
unfolding decide_status
decide_status-IsTier l expired = (λ h e. ground (arith, h.1), λ h. absurd (h refl))
decide_status-IsTier l _ = (λ h e. ground arith, λ h. (_, refl))

not_expired_iff :
    (l : License) (now seen : ℕ)
    → seen ≤ now
    → (check_status l.payload now seen ≢ expired)
      ↔ ((l.payload.not_before ≤ now) × (now ≤ grace_end l.payload))
unfolding check_status
not_expired_iff l now seen h = (λ k. (ground arith, ground arith), λ k e. ground arith)

decide_license-IsTier :
    (c : Crypto) (key : Text) (now : ℕ) (wm : WatermarkFile) (l : License)
    → (get_watermark wm).0 ≤ now
    → IsTier (decide_license c key now wm l) ↔ (
        (verify_signature c l key ≡ none)
        × (l.payload.not_before ≤ now)
        × (now ≤ grace_end l.payload))
unfolding decide_license
decide_license-IsTier c key now wm l h =
    let iff_tier = decide_status-IsTier l (check_status l.payload now (get_watermark wm).0) in
    let iff_time = not_expired_iff l now (get_watermark wm).0 h in
    elim (Option-cases (verify_signature c l key)) [
      | inl good ↦
          rw (good, decide_license)
            (
              λ t. let (a, b) = iff_time.0 (iff_tier.0 t) in (refl, a, b),
              λ t. iff_tier.1 (iff_time.1 (t.1, t.2)),
            )
      | inr (e, bad) ↦
          rw (bad, decide_license)
            (λ t. absurd (ground (arith, t.1)), λ t. absurd (ground (arith, t.0)))
    ]

decide_files-license :
    (c : Crypto) (key : Text) (three_months : ℕ → ℕ) (writable : Bool) (now : ℕ) (f : Files)
    (l : License)
    → f.license ≡ some_license l
    → (decide_files c key three_months writable now f).1 ≡ decide_license c key now f.watermark l
unfolding decide_files
decide_files-license c key three_months writable now f l e = rw (e, decide_files)

-- With a licence file the program starts exactly when the clock was not set back behind the watermark,
-- the signature is good and the time lies between the licence's start and the end of its grace period.
pub enforce_licensing-licensed_iff :
    (c : Crypto) (key : Text) (three_months : ℕ → ℕ) (writable : Bool) (now : ℕ) (f : Files)
    (l : License)
    → f.license ≡ some_license l
    → IsTier (enforce_licensing c key three_months writable now f).1 ↔ (
        NotRewound f.watermark now
        × (verify_signature c l key ≡ none)
        × (l.payload.not_before ≤ now)
        × (now ≤ grace_end l.payload))
unfolding enforce_licensing
enforce_licensing-licensed_iff c key three_months writable now f l e =
    let wm : WatermarkFile = (update_watermark writable f.watermark now).0 in
    let iff_rewound = tampered_iff writable f.watermark now in
    elim (Bool-cases (is_tampered (update_watermark writable f.watermark now).1)) [
      | inl t ↦ (λ h. absurd (halted t h), λ h. absurd (ground (arith, iff_rewound.1 h.0)))
      | inr u ↦
          let iff_license =
            decide_license-IsTier c key now wm l (watermark_not_late writable f.watermark now u) in
          rw (passed u) (
            λ h. let (a, b, d) = iff_license.0 h in (iff_rewound.0 u, a, b, d),
            λ h. iff_license.1 (h.1, h.2, h.3),
          )
    ]
  where
    halted :
        is_tampered (update_watermark writable f.watermark now).1 ≡ true
        → IsTier (enforce_licensing c key three_months writable now f).1
        → ⊥
    halted t h =
        let k : (enforce_licensing c key three_months writable now f).1 ≡ tampered_halt =
          rw (t, enforce_licensing) in
        ground (arith, h.1)

    passed :
        is_tampered (update_watermark writable f.watermark now).1 ≡ false
        → (enforce_licensing c key three_months writable now f).1
          ≡ decide_license c key now (update_watermark writable f.watermark now).0 l
    passed u =
        rw (u, enforce_licensing)
          (decide_files-license c key three_months writable now
            (record f { watermark = (update_watermark writable f.watermark now).0 }) l e)

-- Without a licence file and with a clock that was not set back, the program starts as a trial
-- exactly while three months from the first run have not passed, and the first run is on file
-- afterwards; the first run is the one on file, or now if there is none and the file can be
-- written.
pub enforce_licensing-trial_iff :
    (c : Crypto) (key : Text) (three_months : ℕ → ℕ) (now : ℕ) (f : Files) (start : ℕ)
    → f.license ≡ no_license
    → (f.trial ≡ first_run start) ⊎ ((f.trial ≡ no_trial) × (start ≡ now))
    → NotRewound f.watermark now
    → (((enforce_licensing c key three_months true now f).1 ≡ tier (codes "TRIAL"))
        ↔ (now ≤ three_months start))
      × ((enforce_licensing c key three_months true now f).0.trial ≡ first_run start)
unfolding enforce_licensing decide_files decide_trial
enforce_licensing-trial_iff c key three_months now f start e b n =
    let u = (tampered_iff true f.watermark now).1 n in
    elim b [
      | inl run ↦ ((λ h. ground arith, λ h. ground arith), ground arith)
      | inr (fresh, same) ↦ ((λ h. ground arith, λ h. ground arith), ground arith)
    ]

-- cmd/license-verify: a rewound clock makes the time that was seen last later than now.
unfoldable pub verify_status :
    Bool → License → WatermarkFile → ℕ → ℕ → WatermarkFile × LicenseStatus
verify_status writable l f now hour =
    let (f', e) = update_watermark writable f now in
    let seen = if is_tampered e then now + hour else (get_watermark f).0 in
    (f', check_status l.payload now seen)

-- The command reports tampering exactly when the clock is behind the stored watermark, and then
-- leaves the watermark as it is.
pub verify_status-tampered_iff :
    (writable : Bool) (l : License) (f : WatermarkFile) (now hour : ℕ)
    → 0 < hour
    → ((verify_status writable l f now hour).1 ≡ clock_tampered_status)
      ↔ ((w : ℕ) × (f ≡ stored w) × (now < w) × ((verify_status writable l f now hour).0 ≡ f))
unfolding verify_status update_watermark get_watermark check_status
verify_status-tampered_iff writable l (stored w) now hour h =
    (λ k. (w, refl, ground arith, ground arith), λ (x, e, a, b). ground arith)
verify_status-tampered_iff writable l _ now hour h =
    (λ k. absurd (ground arith), λ (x, e, a, b). absurd (ground arith))
