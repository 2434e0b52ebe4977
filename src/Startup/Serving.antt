-- ===== src/Startup/Serving.antt =====
-- cmd/file-sync/main.go: when the program comes to serve, and with what.
use omni_blob.Base.{
  ◌⊎◌, inl, inr, ◌≡◌, refl, ap, ◌↔◌, inl, inr, true, false, Option, none, some, List, arith,
  Bool-cases, Text,
}
use omni_blob.Config.{Config}
use omni_blob.Config.Load.{LoadResult, unreadable, malformed_yaml, loaded, load_config}
use omni_blob.License.Enforce.{Decision, tier}
use omni_blob.Api.Auth.{Combos, combo_to_client}
use omni_blob.Startup.{
  Libraries, Flags, Outside, apply_flags, routed, start_services, connected, decided, configured,
  run_main, launched, assembled, Running,
}
use omni_blob.Api.Server.{new_server, generate_self_signed_cert, start}
use omni_blob.Startup.Licensed.{Serves, licensing, not-Serves}

config_of : Config → LoadResult → Config
config_of d (loaded c) = c
config_of d r = d

loaded_one : (c d : Config) → loaded c ≡ loaded d → c ≡ d
unfolding config_of
loaded_one c d e = ap (config_of c) e

module _ (lib : Libraries) (flags : Flags) where
  -- The port can be listened on and, with TLS, the certificate files are there or can be made.
  abbrev pub Listens : Config → Type 0
  Listens c =
      (lib.listens ≡ true)
      × ((c.server.tls_enabled ≡ false)
          ⊎ ((generate_self_signed_cert lib.cert_luck lib.cert_files).1 ≡ true))

  -- The steps behind the licence succeed: the database answers, no scan is asked for, the root and
  -- the audit log are there, no two clients have the same credentials, and the server listens.
  abbrev pub IsReady : Config → Type 0
  IsReady c =
      (lib.connects c.database ≡ true)
      × (flags.scan_legacy ≡ false)
      × (lib.makes_root c.storage.root_path ≡ true)
      × (lib.opens_audit ≡ true)
      × ((combos : Combos) × (combo_to_client c.server ≡ some combos))
      × Listens c

  launched-Serves :
      (c : Config) (r : Running)
      → r.server.tls_enabled ≡ c.server.tls_enabled
      → Serves (launched lib r) ↔ Listens c
  unfolding launched start
  launched-Serves c r e = elim (Bool-cases lib.listens) [
    | inr n ↦ (
      λ s. absurd (not-Serves (launched lib r) (rw n refl) s),
      λ h. absurd (ground (arith, n, h.0)),
    )
    | inl y ↦ elim (Bool-cases c.server.tls_enabled) [
      | inr plain ↦ rw (y, e, plain) (λ s. (refl, inl refl), λ h. (_, refl))
      | inl tls ↦ elim (Bool-cases (generate_self_signed_cert lib.cert_luck lib.cert_files).1) [
        | inl made ↦ rw (y, e, tls, made) (λ s. (refl, inr refl), λ h. (_, refl))
        | inr unmade ↦ (
          λ s. absurd (not-Serves (launched lib r) (rw (y, e, tls, unmade) refl) s),
          λ h. absurd (ground (arith, tls, unmade, h.1)),
        )
      ]
    ]
  ]

  routed-Serves :
      (c : Config) (t : Text) (lines : List Text) (o : Option Combos)
      → Serves (routed lib c t lines o) ↔ (((combos : Combos) × (o ≡ some combos)) × Listens c)
  unfolding new_server
  routed-Serves c t lines none =
      (λ s. absurd (not-Serves _ refl s), λ h. absurd (ground (arith, h.0.1)))
  routed-Serves c t lines (some combos) =
      let (there, back) = launched-Serves c (assembled lib c t lines combos) refl in
      (λ s. ((combos, refl), there s), λ h. back h.1)

  services-Serves :
      (c : Config) (t : Text) (lines : List Text)
      → Serves (start_services lib c t lines) ↔ (
          (lib.makes_root c.storage.root_path ≡ true)
          × (lib.opens_audit ≡ true)
          × ((combos : Combos) × (combo_to_client c.server ≡ some combos))
          × Listens c)
  unfolding start_services
  services-Serves c t lines = elim (Bool-cases (lib.makes_root c.storage.root_path)) [
    | inr e ↦ (
      λ s. absurd (not-Serves (start_services lib c t lines) (rw e refl) s),
      λ h. absurd (ground (arith, e, h.0)),
    )
    | inl e ↦ elim (Bool-cases lib.opens_audit) [
      | inr f ↦ (
        λ s. absurd (not-Serves (start_services lib c t lines) (rw (e, f) refl) s),
        λ h. absurd (ground (arith, f, h.1)),
      )
      | inl f ↦
          let (there, back) = routed-Serves c t lines (combo_to_client c.server) in
          rw (e, f) (λ s. let (t, l) = there s in (refl, refl, t, l), λ h. back (h.2, h.3))
    ]
  ]

  connected-Serves :
      (c : Config) (t : Text) (out : Outside)
      → Serves (connected lib flags c t out).1
        ↔ ((flags.scan_legacy ≡ false) × Serves (start_services lib c t out.audit_lines))
  unfolding connected
  connected-Serves c t out = elim (Bool-cases flags.scan_legacy) [
    | inl e ↦ (
      λ s. absurd (not-Serves (connected lib flags c t out).1 (rw e refl) s),
      λ h. absurd (ground (arith, e, h.0)),
    )
    | inr e ↦ rw e (λ s. (refl, s), λ h. h.1)
  ]

  decided-Serves :
      (c : Config) (d : Decision) (out : Outside)
      → Serves (decided lib flags c d out).1 ↔ (((t : Text) × (d ≡ tier t)) × IsReady c)
  decided-Serves c (tier t) out = elim (Bool-cases (lib.connects c.database)) [
    | inr e ↦ (
      λ s. absurd (not-Serves (decided lib flags c (tier t) out).1 (rw e refl) s),
      λ h. absurd (ground (arith, e, h.1.0)),
    )
    | inl e ↦
        let (there, back) = connected-Serves c t out in
        let (down, up) = services-Serves c t out.audit_lines in
        rw e (
          λ s.
              let (scan, run) = there s in
              let (root, log, combos, listens) = down run in
              ((t, refl), (refl, scan, root, log, combos, listens)),
          λ h. back (h.1.1, up (h.1.2, h.1.3, h.1.4, h.1.5)),
        )
  ]
  decided-Serves c d out = (
    λ s. absurd (not-Serves (decided lib flags c d out).1 refl s),
    λ h. absurd (ground (arith, h.0.1)),
  )

  -- The configuration is read, a tier is given, and the steps behind succeed.
  abbrev pub Loads : LoadResult → Outside → Type 0
  Loads r out =
      (c : Config) × (r ≡ loaded c)
      × ((t : Text) × (licensing lib out ≡ tier t))
      × IsReady (apply_flags flags c)

  configured-Serves :
      (r : LoadResult) (out : Outside) → Serves (configured lib flags r out).1 ↔ Loads r out
  configured-Serves unreadable out =
      (λ s. absurd (not-Serves _ refl s), λ h. absurd (ground (arith, h.1)))
  configured-Serves malformed_yaml out =
      (λ s. absurd (not-Serves _ refl s), λ h. absurd (ground (arith, h.1)))
  configured-Serves (loaded c) out =
      let (there, back) = decided-Serves (apply_flags flags c) (licensing lib out) _ in
      (
        λ s. let (t, ready) = there s in (c, refl, t, ready),
        λ (d, e, t, ready). back (t, rw (loaded_one c d e) ready),
      )

  pub run_main-Serves_iff :
      (out : Outside)
      → Serves (run_main lib flags out).1 ↔ (
          (flags.version ≡ false)
          × Loads
              (load_config lib.parse lib.dot_env
                (lib.config_file flags.config_path)
                out.environment).1
              out)
  unfolding run_main
  run_main-Serves_iff out = elim (Bool-cases flags.version) [
    | inl e ↦ (
      λ s. absurd (not-Serves (run_main lib flags out).1 (rw e refl) s),
      λ h. absurd (ground (arith, e, h.0)),
    )
    | inr e ↦
        let (environment, r) =
          load_config lib.parse lib.dot_env (lib.config_file flags.config_path) out.environment in
        let (there, back) = configured-Serves r (record out { environment = environment }) in
        rw e (λ s. (refl, there s), λ h. back h.1)
  ]
