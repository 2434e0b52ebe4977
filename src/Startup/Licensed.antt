-- ===== src/Startup/Licensed.antt =====
-- cmd/file-sync/main.go: what a start needs.
use omni_blob.Base.{
  ◌≤◌, ◌≡◌, refl, sym, ap, ◌∙◌, ◌≢◌, ◌⊎◌, inl, inr, Bool, true, false, none, arith, Bool-cases,
}
use omni_blob.Config.{Config}
use omni_blob.Config.Load.{LoadResult, unreadable, malformed_yaml, loaded, load_config}
use omni_blob.License.{License, verify_signature, grace_end}
use omni_blob.License.Enforce.{
  Decision, tier, enforce_licensing, some_license, IsTier, NotRewound,
  enforce_licensing-licensed_iff,
}
use omni_blob.Scanner.{Table}
use omni_blob.Startup.{
  Libraries, Flags, Outside, Running, Start, running, apply_flags, decided, configured, run_main,
}

abbrev pub Serves : Start → Type 0
Serves st = (r : Running) × (st ≡ running r)

abbrev pub is_running : Start → Bool
is_running (running r) = true
is_running st = false

pub not-Serves : (st : Start) → is_running st ≡ false → Serves st → ⊥
not-Serves st e (r, h) = absurd (ground (arith, sym e ∙ ap is_running h))

-- The program gave legacy files rows, or serves.
abbrev pub IsActive : Table → Outside × Start → Type 0
IsActive before x = (x.0.table ≢ before) ⊎ Serves x.1

inactive :
    (t : Table) (x : Outside × Start) → x.0.table ≡ t → is_running x.1 ≡ false → IsActive t x → ⊥
inactive t x e s (inl changed) = changed e
inactive t x e s (inr serves) = not-Serves x.1 s serves

abbrev pub licensing : Libraries → Outside → Decision
licensing lib out =
    (enforce_licensing lib.crypto lib.public_key lib.three_months lib.writable lib.now
      out.license).1

module _ (lib : Libraries) (flags : Flags) where
  decided-IsTier :
      (c : Config) (d : Decision) (out : Outside)
      → IsActive out.table (decided lib flags c d out)
      → IsTier d
  decided-IsTier c (tier t) out a = (t, refl)
  decided-IsTier c d out a = absurd (inactive out.table (decided lib flags c d out) refl refl a)

  configured-IsTier :
      (r : LoadResult) (out : Outside)
      → IsActive out.table (configured lib flags r out)
      → IsTier (licensing lib out)
  configured-IsTier unreadable out a =
      absurd (inactive out.table (configured lib flags unreadable out) refl refl a)
  configured-IsTier malformed_yaml out a =
      absurd (inactive out.table (configured lib flags malformed_yaml out) refl refl a)
  configured-IsTier (loaded c) out a = decided-IsTier (apply_flags flags c) (licensing lib out) _ a

  run_main-IsTier :
      (out : Outside) → IsActive out.table (run_main lib flags out) → IsTier (licensing lib out)
  unfolding run_main
  run_main-IsTier out a = elim (Bool-cases flags.version) [
    | inl v ↦ absurd (inactive out.table (run_main lib flags out) (rw v refl) (rw v refl) a)
    | inr n ↦
        let (environment, r) =
          load_config lib.parse lib.dot_env (lib.config_file flags.config_path) out.environment in
        configured-IsTier r (record out { environment = environment }) (rw n at a)
  ]

  -- With a licence file on disk the program gives legacy files rows or serves requests only if the
  -- clock was not set back behind the watermark, the licence's signature is good and the time lies
  -- between its start and the end of its grace period, whatever the flags and the configuration are.
  pub run_main_licensed :
      (out : Outside) (l : License)
      → out.license.license ≡ some_license l
      → IsActive out.table (run_main lib flags out)
      → NotRewound out.license.watermark lib.now
        × (verify_signature lib.crypto l lib.public_key ≡ none)
        × (l.payload.not_before ≤ lib.now)
        × (lib.now ≤ grace_end l.payload)
  run_main_licensed out l e a =
      (enforce_licensing-licensed_iff lib.crypto lib.public_key lib.three_months lib.writable
          lib.now out.license l e).0
        (run_main-IsTier out a)
