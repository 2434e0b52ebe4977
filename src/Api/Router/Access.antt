-- ===== src/Api/Router/Access.antt =====
-- internal/api/router.go: which requests can change the files and the records.
use omni_blob.Base.{
  ℕ, ◌≡◌, refl, ◌⊎◌, inl, inr, true, Option, none, some, Bool-cases, Text, codes, text_eq,
}
use omni_blob.Http.{Request}
use omni_blob.Api.BlockList.{BlockList}
use omni_blob.Api.RateLimit.{Limits, rate_limit}
use omni_blob.Api.Auth.{ClientInfo, Verdict, pass, reject, app_auth}
use omni_blob.Api.Router.Routes.{
  Route, static_page, not_found, moved, health, summary, analytics, quality, explorer, presign,
  upload, bulk_upload, view, other, route_of,
}
use omni_blob.Api.Router.{
  Site, Moment, State, Action, judged, guarded, is_signed, secured, do_upload, do_bulk, do_view,
  do_serve, do_delete, do_presign, serve_route, in_bucket, is_preflight, limited, handle, rpm_of,
  name_of, audit_request,
}
use omni_blob.Api.Handler.{World}

module _ (s : Site) (m : Moment) where
  -- The request passes the authentication of its application.
  abbrev pub Passes : Request → BlockList → Type 0
  Passes r bl =
      (c : Option ClientInfo) × ((app_auth s.ldap s.server.ldap s.combos s.has_db m.now r bl).1
        ≡ pass c)

  judged-keeps :
      (act : Action) (st : State) (bl : BlockList) (v : Verdict)
      → ((judged act st bl v).0.world ≡ st.world) ⊎ ((c : Option ClientInfo) × (v ≡ pass c))
  judged-keeps act st bl (pass c) = inr (c, refl)
  judged-keeps act st bl (reject n) = inl refl

  guarded-keeps :
      (r : Request) (act : Action) (st : State)
      → ((guarded s m r act st).0.world ≡ st.world) ⊎ Passes r st.blocks
  unfolding guarded
  guarded-keeps r act st =
      judged-keeps act st (app_auth s.ldap s.server.ldap s.combos s.has_db m.now r st.blocks).0
        (app_auth s.ldap s.server.ldap s.combos s.has_db m.now r st.blocks).1

  judged-reads :
      (act : Action) (st : State) (bl : BlockList) (v : Verdict)
      → ((client : Option Text) (w : World) → (act client w).0 ≡ w)
      → (judged act st bl v).0.world ≡ st.world
  judged-reads act st bl (pass c) h = h (name_of c) st.world
  judged-reads act st bl (reject n) h = refl

  guarded-reads :
      (r : Request) (act : Action) (st : State)
      → ((client : Option Text) (w : World) → (act client w).0 ≡ w)
      → (guarded s m r act st).0.world ≡ st.world
  unfolding guarded
  guarded-reads r act st h =
      judged-reads act st (app_auth s.ldap s.server.ldap s.combos s.has_db m.now r st.blocks).0
        (app_auth s.ldap s.server.ldap s.combos s.has_db m.now r st.blocks).1 h

  secured-keeps :
      (r : Request) (act : Action) (st : State)
      → ((secured s m r act st).0.world ≡ st.world)
        ⊎ ((is_signed s m r ≡ true) ⊎ Passes r st.blocks)
  unfolding secured
  secured-keeps r act st = elim (Bool-cases (is_signed s m r)) [
    | inl e ↦ inr (inl e)
    | inr e ↦ elim (guarded-keeps r act st) [ inl k ↦ inl (rw e k) | inr p ↦ inr (inr p) ]
  ]

  reading-keeps :
      (r : Request) (act : Action) (st : State)
      → ((client : Option Text) (w : World) → (act client w).0 ≡ w)
      → (secured s m r act st).0.world ≡ st.world
  unfolding secured
  reading-keeps r act st h = elim (Bool-cases (is_signed s m r)) [
    | inl e ↦ rw e (h none st.world)
    | inr e ↦ rw e (guarded-reads r act st h)
  ]

  -- Only an upload that is signed or authenticated, a bulk upload that is authenticated, and a
  -- deletion that is authenticated.
  abbrev pub Permitted : Request → BlockList → Route → Type 0
  Permitted r bl (upload b) = (is_signed s m (in_bucket r b) ≡ true) ⊎ Passes (in_bucket r b) bl
  Permitted r bl (bulk_upload b) = Passes (in_bucket r b) bl
  Permitted r bl (other b) = (text_eq r.method (codes "DELETE") ≡ true) × Passes (in_bucket r b) bl
  Permitted r bl _ = ⊥

  serve_route-keeps :
      (r : Request) (route : Route) (st : State)
      → ((serve_route s m r route st).0.world ≡ st.world) ⊎ Permitted r st.blocks route
  unfolding serve_route do_view do_serve do_presign
  serve_route-keeps r static_page st = inl refl
  serve_route-keeps r not_found st = inl refl
  serve_route-keeps r moved st = inl refl
  serve_route-keeps r health st = inl refl
  serve_route-keeps r summary st = inl refl
  serve_route-keeps r analytics st = inl refl
  serve_route-keeps r quality st = inl refl
  serve_route-keeps r explorer st = inl refl
  serve_route-keeps r presign st = inl (guarded-reads r (do_presign s m r) st (λ c w. refl))
  serve_route-keeps r (upload b) st =
      secured-keeps (in_bucket r b) (do_upload s m (in_bucket r b)) st
  serve_route-keeps r (bulk_upload b) st =
      guarded-keeps (in_bucket r b) (do_bulk s m (in_bucket r b)) st
  serve_route-keeps r (view b) st =
      inl (reading-keeps (in_bucket r b) (do_view s m (in_bucket r b)) st (λ c w. refl))
  serve_route-keeps r (other b) st = elim (Bool-cases (text_eq r.method (codes "DELETE"))) [
    | inr e ↦
        rw e (inl (reading-keeps (in_bucket r b) (do_serve s m (in_bucket r b)) st (λ c w. refl)))
    | inl e ↦ elim (guarded-keeps (in_bucket r b) (do_delete s m (in_bucket r b)) st) [
      | inl k ↦ inl (rw e k)
      | inr p ↦ inr (e, p)
    ]
  ]

  limited-keeps :
      (r : Request) (st : State) (lim : Limits) (o : Option ℕ)
      → ((limited s m r st lim o).0.world ≡ st.world) ⊎ Permitted r st.blocks (route_of r.url_path)
  limited-keeps r st lim (some n) = inl refl
  limited-keeps r st lim none =
      serve_route-keeps r (route_of r.url_path)
        (record st { limits = lim; audit = audit_request s m r st.audit })

  -- A request leaves the files and the records as they are, unless it is an upload whose URL is signed
  -- or that passes the authentication, or a bulk upload or a deletion that passes the authentication,
  -- each with the bucket of its route as its path value.
  pub handle-Permitted :
      (r : Request) (st : State)
      → ((handle s m r st).0.world ≡ st.world) ⊎ Permitted r st.blocks (route_of r.url_path)
  unfolding handle
  handle-Permitted r st = elim (Bool-cases (is_preflight r)) [
    | inl e ↦ rw e (inl refl)
    | inr e ↦ rw e (
        limited-keeps r st (rate_limit (rpm_of s.server.rate_limit_rpm) m.now r st.limits).0
          (rate_limit (rpm_of s.server.rate_limit_rpm) m.now r st.limits).1)
  ]
