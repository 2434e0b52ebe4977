-- ===== src/Api/Router/Trail.antt =====
-- internal/api/router.go: what of a request is seen in the audit log.
use omni_blob.Base.{
  ℕ, ◌≡◌, refl, inl, inr, Bool, true, false, not, Option, none, some, if◌then◌else◌, Bool-cases,
  Text, codes, text_eq,
}
use omni_blob.Http.{Request}
use omni_blob.Audit.{AuditLogger, log_connection}
use omni_blob.Audit.Chain.{IsChain, log_connection-IsChain}
use omni_blob.Api.BlockList.{BlockList}
use omni_blob.Api.RateLimit.{Limits, rate_limit}
use omni_blob.Api.Auth.{Verdict, pass, reject, app_auth}
use omni_blob.Api.Router.Routes.{
  Route, static_page, not_found, moved, health, summary, analytics, quality, explorer, presign,
  upload, bulk_upload, view, other, route_of,
}
use omni_blob.Api.Router.{
  Site, Moment, State, Action, judged, guarded, is_signed, secured, do_upload, do_bulk, do_view,
  do_serve, do_delete, do_presign, serve_route, in_bucket, is_preflight, limited, handle, rpm_of,
  audit_request,
}

module _ (s : Site) (m : Moment) where
  judged-audit :
      (act : Action) (st : State) (bl : BlockList) (v : Verdict)
      → (judged act st bl v).0.audit ≡ st.audit
  judged-audit act st bl (pass c) = refl
  judged-audit act st bl (reject n) = refl

  guarded-audit :
      (r : Request) (act : Action) (st : State) → (guarded s m r act st).0.audit ≡ st.audit
  unfolding guarded
  guarded-audit r act st =
      judged-audit act st (app_auth s.ldap s.server.ldap s.combos s.has_db m.now r st.blocks).0
        (app_auth s.ldap s.server.ldap s.combos s.has_db m.now r st.blocks).1

  secured-audit :
      (r : Request) (act : Action) (st : State) → (secured s m r act st).0.audit ≡ st.audit
  unfolding secured
  secured-audit r act st = elim (Bool-cases (is_signed s m r)) [
    | inl e ↦ rw e refl
    | inr e ↦ rw e (guarded-audit r act st)
  ]

  serve_route-audit :
      (r : Request) (route : Route) (st : State) → (serve_route s m r route st).0.audit ≡ st.audit
  unfolding serve_route
  serve_route-audit r static_page st = refl
  serve_route-audit r not_found st = refl
  serve_route-audit r moved st = refl
  serve_route-audit r health st = refl
  serve_route-audit r summary st = refl
  serve_route-audit r analytics st = refl
  serve_route-audit r quality st = refl
  serve_route-audit r explorer st = refl
  serve_route-audit r presign st = guarded-audit r (do_presign s m r) st
  serve_route-audit r (upload b) st =
      secured-audit (in_bucket r b) (do_upload s m (in_bucket r b)) st
  serve_route-audit r (bulk_upload b) st =
      guarded-audit (in_bucket r b) (do_bulk s m (in_bucket r b)) st
  serve_route-audit r (view b) st = secured-audit (in_bucket r b) (do_view s m (in_bucket r b)) st
  serve_route-audit r (other b) st = elim (Bool-cases (text_eq r.method (codes "DELETE"))) [
    | inl e ↦ rw e (guarded-audit (in_bucket r b) (do_delete s m (in_bucket r b)) st)
    | inr e ↦ rw e (secured-audit (in_bucket r b) (do_serve s m (in_bucket r b)) st)
  ]

  -- What the rate limiter answers the request.
  abbrev pub limiter : Request → State → Option ℕ
  limiter r st = (rate_limit (rpm_of s.server.rate_limit_rpm) m.now r st.limits).1

  abbrev pub trail_after : Option ℕ → Request → AuditLogger → AuditLogger
  trail_after (some n) r a = a
  trail_after none r a = audit_request s m r a

  limited-audit :
      (r : Request) (st : State) (lim : Limits) (o : Option ℕ)
      → (limited s m r st lim o).0.audit ≡ trail_after o r st.audit
  limited-audit r st lim (some n) = refl
  limited-audit r st lim none =
      serve_route-audit r (route_of r.url_path)
        (record st { limits = lim; audit = audit_request s m r st.audit })

  -- What a request leaves in the log: nothing where it is a preflight or the rate limiter refuses it,
  -- else one entry of the audit middleware, whatever the handler answers and whether it passes the
  -- authentication or not.
  pub handle-audit :
      (r : Request) (st : State)
      → (handle s m r st).0.audit
        ≡ (if is_preflight r then st.audit else trail_after (limiter r st) r st.audit)
  unfolding handle
  handle-audit r st = elim (Bool-cases (is_preflight r)) [
    | inl e ↦ rw e refl
    | inr e ↦ rw e (
        limited-audit r st (rate_limit (rpm_of s.server.rate_limit_rpm) m.now r st.limits).0
          (rate_limit (rpm_of s.server.rate_limit_rpm) m.now r st.limits).1)
  ]

  abbrev ChainOf : AuditLogger → Type 0
  ChainOf a = IsChain s.env.sha s.json a.lines a.last_hash

  one_of-chain :
      (b : Bool) (x y : AuditLogger) → ChainOf x → ChainOf y → ChainOf (if b then x else y)
  one_of-chain true x y c d = c
  one_of-chain false x y c d = d

  logged-chain :
      (written : Bool) (time remote forwarded action reason : Text) (a : AuditLogger)
      → written ≡ true
      → ChainOf a
      → ChainOf (log_connection s.env.sha s.json written time remote forwarded action reason a).0
  logged-chain written time remote forwarded action reason a w c =
      rw w (log_connection-IsChain s.env.sha s.json time remote forwarded action reason a c)

  audit_request-chain :
      (r : Request) (a : AuditLogger)
      → m.line_written ≡ true
      → ChainOf a
      → ChainOf (audit_request s m r a)
  unfolding audit_request
  audit_request-chain r a w c =
      one_of-chain (not s.security.enabled) a _ c
        (logged-chain m.line_written m.stamp r.remote_addr _ _ _ a w c)

  trail_after-chain :
      (o : Option ℕ) (r : Request) (a : AuditLogger)
      → m.line_written ≡ true
      → ChainOf a
      → ChainOf (trail_after o r a)
  trail_after-chain (some n) r a w c = c
  trail_after-chain none r a w c = audit_request-chain r a w c

  -- A request whose line is written, if it has one, leaves the log a chain of hashes.
  pub handle-IsChain :
      (r : Request) (st : State)
      → m.line_written ≡ true
      → IsChain s.env.sha s.json st.audit.lines st.audit.last_hash
      → IsChain s.env.sha s.json (handle s m r st).0.audit.lines (handle s m r st).0.audit.last_hash
  handle-IsChain r st w c = rw (handle-audit r st) (
      one_of-chain (is_preflight r) st.audit (trail_after (limiter r st) r st.audit) c
        (trail_after-chain (limiter r st) r st.audit w c))
