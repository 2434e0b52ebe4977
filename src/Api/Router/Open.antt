-- ===== src/Api/Router/Open.antt =====
-- internal/api/router.go: what is answered to a request that no credentials belong to.
use omni_blob.Base.{◌≡◌, refl, sym, ap, ◌∙◌, Bool, true, false, Option, none, Text, Assoc}
use omni_blob.Http.{Request, query_value}
use omni_blob.Audit.{AuditLogger}
use omni_blob.Api.BlockList.{BlockList}
use omni_blob.Api.RateLimit.{Limits, rate_limit}
use omni_blob.Api.Router.Routes.{
  Route, static_page, not_found, moved, health, summary, analytics, quality, explorer, presign,
  upload, bulk_upload, view, other, route_of,
}
use omni_blob.Api.Router.{
  Site, Moment, State, serve_route, is_preflight, limited, handle, rpm_of, audit_request, explore,
}

-- The routes of the dashboard and of the explorer.
abbrev pub is_open : Route → Bool
is_open summary = true
is_open analytics = true
is_open quality = true
is_open explorer = true
is_open _ = false

module _ (s : Site) (m : Moment) where
  -- The limiter lets the request through.
  abbrev pub Admitted : Request → State → Type 0
  Admitted r st = (rate_limit (rpm_of s.server.rate_limit_rpm) m.now r st.limits).1 ≡ none

  handle-Admitted :
      (r : Request) (st : State)
      → is_preflight r ≡ false
      → Admitted r st
      → handle s m r st
        ≡ serve_route s m r (route_of r.url_path) (record st {
          limits = (rate_limit (rpm_of s.server.rate_limit_rpm) m.now r st.limits).0;
          audit = audit_request s m r st.audit;
        })
  unfolding handle
  handle-Admitted r st p a =
      rw p
        (ap (limited s m r st (rate_limit (rpm_of s.server.rate_limit_rpm) m.now r st.limits).0) a)

  -- The request with other headers, credentials and address, and the state with other tables of the
  -- limiter and of the block list and another log.
  abbrev pub from_other : Request → Assoc Text → Option (Text × Text) → Text → Request
  from_other r hs ba from = record r { headers = hs; basic_auth = ba; remote_addr = from }

  abbrev pub elsewhere : State → Limits → BlockList → AuditLogger → State
  elsewhere st lim bl au = record st { limits = lim; blocks = bl; audit = au }

  open-same :
      (r : Request) (hs : Assoc Text) (ba : Option (Text × Text)) (from : Text) (route : Route)
      (st : State) (lim : Limits) (bl : BlockList) (au : AuditLogger)
      → is_open route ≡ true
      → (serve_route s m (from_other r hs ba from) route (elsewhere st lim bl au)).1
        ≡ (serve_route s m r route st).1
  unfolding serve_route explore query_value
  open-same r hs ba from summary st lim bl au o = refl
  open-same r hs ba from analytics st lim bl au o = refl
  open-same r hs ba from quality st lim bl au o = refl
  open-same r hs ba from explorer st lim bl au o = refl
  open-same r hs ba from static_page st lim bl au o = cc
  open-same r hs ba from not_found st lim bl au o = cc
  open-same r hs ba from moved st lim bl au o = cc
  open-same r hs ba from health st lim bl au o = cc
  open-same r hs ba from presign st lim bl au o = cc
  open-same r hs ba from (upload b) st lim bl au o = cc
  open-same r hs ba from (bulk_upload b) st lim bl au o = cc
  open-same r hs ba from (view b) st lim bl au o = cc
  open-same r hs ba from (other b) st lim bl au o = cc

  -- The dashboard and the listing of all stored and legacy files answer anyone: a request that the
  -- limiter admits gets the same answer with any headers and credentials, from any address, and
  -- whatever the block list holds.
  pub handle-open :
      (r : Request) (hs : Assoc Text) (ba : Option (Text × Text)) (from : Text) (st : State)
      (lim : Limits) (bl : BlockList) (au : AuditLogger)
      → is_open (route_of r.url_path) ≡ true
      → is_preflight r ≡ false
      → Admitted r st
      → Admitted (from_other r hs ba from) (elsewhere st lim bl au)
      → (handle s m (from_other r hs ba from) (elsewhere st lim bl au)).1 ≡ (handle s m r st).1
  handle-open r hs ba from st lim bl au o p a a' =
      let r' = from_other r hs ba from in
      let st' = elsewhere st lim bl au in
      ap (λ x. x.1) (handle-Admitted r' st' p a')
      ∙ open-same r hs ba from (route_of r.url_path)
          (record st {
            limits = (rate_limit (rpm_of s.server.rate_limit_rpm) m.now r st.limits).0;
            audit = audit_request s m r st.audit;
          })
          (rate_limit (rpm_of s.server.rate_limit_rpm) m.now r' lim).0 bl (audit_request s m r' au)
          o
      ∙ sym (ap (λ x. x.1) (handle-Admitted r st p a))
