-- ===== src/Api/Router/Reachable.antt =====
-- internal/api/router.go: what holds of every state that a sequence of requests can lead to.
use omni_blob.Base.{
  ℕ, ◌≡◌, inl, inr, Bool, true, Option, none, some, ◌∷◌, arith, Bool-cases, Text, codes, text_eq,
}
use omni_blob.FilePath.{slash}
use omni_blob.Http.{Request}
use omni_blob.Audit.Chain.{IsChain}
use omni_blob.Api.BlockList.{BlockList}
use omni_blob.Api.RateLimit.{Limits, rate_limit}
use omni_blob.Api.Auth.{Verdict, pass, reject, app_auth}
use omni_blob.Api.Handler.{World}
use omni_blob.Api.Handler.Serve.{delete_file}
use omni_blob.Api.Handler.Kept.{
  IsKept, IsFriendly, IsAside, FormFriendly, upload-IsKept, bulk_upload-IsKept,
}
use omni_blob.Api.Router.Routes.{
  Route, static_page, not_found, moved, health, summary, analytics, quality, explorer, presign,
  upload, bulk_upload, view, other, route_of,
}
use omni_blob.Api.Router.{
  Site, Moment, State, Action, judged, guarded, is_signed, secured, do_upload, do_bulk, do_view,
  do_serve, do_delete, do_presign, serve_route, in_bucket, is_preflight, limited, handle, rpm_of,
  name_of, audit_request,
}
use omni_blob.Api.Router.Trail.{handle-IsChain}

-- What an action keeps, the route around it keeps.
module _ (s : Site) (m : Moment) (P : World → Type 0) where
  abbrev KeepsP : Action → Type 0
  KeepsP act = (client : Option Text) (w : World) → P w → P (act client w).0

  judged-keeps :
      (act : Action) (st : State) (bl : BlockList) (v : Verdict)
      → KeepsP act
      → P st.world
      → P (judged act st bl v).0.world
  judged-keeps act st bl (pass c) h p = h (name_of c) st.world p
  judged-keeps act st bl (reject n) h p = p

  guarded-keeps :
      (r : Request) (act : Action) (st : State)
      → KeepsP act
      → P st.world
      → P (guarded s m r act st).0.world
  unfolding guarded
  guarded-keeps r act st h p =
      judged-keeps act st (app_auth s.ldap s.server.ldap s.combos s.has_db m.now r st.blocks).0
        (app_auth s.ldap s.server.ldap s.combos s.has_db m.now r st.blocks).1 h p

  secured-keeps :
      (r : Request) (act : Action) (st : State)
      → KeepsP act
      → P st.world
      → P (secured s m r act st).0.world
  unfolding secured
  secured-keeps r act st h p = elim (Bool-cases (is_signed s m r)) [
    | inl e ↦ rw e (h none st.world p)
    | inr e ↦ rw e (guarded-keeps r act st h p)
  ]

module _ (s : Site) (b : Text) (root : s.handler.storage.root_path ≡ slash ∷ b) where
  abbrev Kept : World → Type 0
  Kept w = IsKept s.handler s.env b root w

  -- Beside a request other ones keep the objects and its temporary file, and its entry in the audit
  -- log is written.
  abbrev pub IsCalm : Moment → Type 0
  IsCalm m =
      IsFriendly s.handler s.env b root m.luck
      × FormFriendly s.handler s.env b root m.bulk_form
      × (m.line_written ≡ true)

  delete_file-disk :
      (up delete_up : Bool) (path : Text) (w : World)
      → (delete_file up delete_up path w).0.disk ≡ w.disk
  unfolding delete_file
  delete_file-disk up delete_up path w = ground arith

  delete_file-objects :
      (up delete_up : Bool) (path : Text) (w : World)
      → (delete_file up delete_up path w).0.objects ≡ w.objects
  unfolding delete_file
  delete_file-objects up delete_up path w = ground arith

  delete_file-Kept :
      (up delete_up : Bool) (path : Text) (w : World)
      → Kept w
      → Kept (delete_file up delete_up path w).0
  delete_file-Kept up delete_up path w k =
      rw (delete_file-disk up delete_up path w, delete_file-objects up delete_up path w) k

  module _ (aside : IsAside s.handler s.env b root) where
    route-Kept :
        (m : Moment) (r : Request) (route : Route) (st : State)
        → IsCalm m
        → Kept st.world
        → Kept (serve_route s m r route st).0.world
    unfolding serve_route do_upload do_bulk do_view do_serve do_delete do_presign
    route-Kept m r static_page st c k = k
    route-Kept m r not_found st c k = k
    route-Kept m r moved st c k = k
    route-Kept m r health st c k = k
    route-Kept m r summary st c k = k
    route-Kept m r analytics st c k = k
    route-Kept m r quality st c k = k
    route-Kept m r explorer st c k = k
    route-Kept m r presign st c k =
        guarded-keeps s m Kept r (do_presign s m r) st (λ client w p. p) k
    route-Kept m r (upload d) st c k =
        secured-keeps s m Kept (in_bucket r d) (do_upload s m (in_bucket r d)) st
          (λ client w p.
            upload-IsKept s.handler s.env b root aside m.luck (in_bucket r d) client m.form w c.0 p)
          k
    route-Kept m r (bulk_upload d) st c k =
        guarded-keeps s m Kept (in_bucket r d) (do_bulk s m (in_bucket r d)) st
          (λ client w p.
            bulk_upload-IsKept s.handler s.env b root aside (in_bucket r d) client m.bulk_form w c.1
              p)
          k
    route-Kept m r (view d) st c k =
        secured-keeps s m Kept (in_bucket r d) (do_view s m (in_bucket r d)) st (λ client w p. p) k
    route-Kept m r (other d) st c k = elim (Bool-cases (text_eq r.method (codes "DELETE"))) [
      | inl e ↦ rw e (
          guarded-keeps s m Kept (in_bucket r d) (do_delete s m (in_bucket r d)) st
            (λ client w p. delete_file-Kept m.lookup_up m.delete_up r.url_path w p) k)
      | inr e ↦ rw e (
          secured-keeps s m Kept (in_bucket r d) (do_serve s m (in_bucket r d)) st (λ client w p. p)
            k)
    ]

    limited-Kept :
        (m : Moment) (r : Request) (st : State) (lim : Limits) (o : Option ℕ)
        → IsCalm m
        → Kept st.world
        → Kept (limited s m r st lim o).0.world
    limited-Kept m r st lim (some n) c k = k
    limited-Kept m r st lim none c k =
        route-Kept m r (route_of r.url_path)
          (record st { limits = lim; audit = audit_request s m r st.audit }) c k

    handle-Kept :
        (m : Moment) (r : Request) (st : State)
        → IsCalm m
        → Kept st.world
        → Kept (handle s m r st).0.world
    unfolding handle
    handle-Kept m r st c k = elim (Bool-cases (is_preflight r)) [
      | inl e ↦ rw e k
      | inr e ↦ rw e (
          limited-Kept m r st (rate_limit (rpm_of s.server.rate_limit_rpm) m.now r st.limits).0
            (rate_limit (rpm_of s.server.rate_limit_rpm) m.now r st.limits).1 c k)
    ]

  -- The states that requests lead to from one, one after another.
  pub data Reach (st : State) : State → Type 0 where
    here : Reach st st
    next :
        {u : State} (v : State) (m : Moment) (r : Request)
        → Reach st u
        → IsCalm m
        → v ≡ (handle s m r u).0
        → Reach st v

  -- The store and the log are as they have to be.
  abbrev pub IsWell : State → Type 0
  IsWell st =
      IsKept s.handler s.env b root st.world
      × IsChain s.env.sha s.json st.audit.lines st.audit.last_hash

  -- Whatever requests come one after another, with whatever paths, methods, credentials and bodies,
  -- and whatever calls of the disk but the Close of a temporary file and whatever queries fail: if
  -- the objects stand under the hashes of their bytes, the table of objects names their paths and
  -- the audit log is a chain of hashes, then so it stays. It is assumed that the storage root is an
  -- absolute path, that what else happens beside a request keeps the objects and leaves the
  -- temporary files of the request alone, that the sidecars are no objects, and that log lines are
  -- written.
  pub Reach-IsWell :
      (aside : IsAside s.handler s.env b root) {st u : State} → Reach st u → IsWell st → IsWell u
  Reach-IsWell aside here w = w
  Reach-IsWell aside (next v m r reach c e) w =
      let (k, chain) = Reach-IsWell aside reach w in
      rw e (handle-Kept aside m r _ c k, handle-IsChain s m r _ c.2 chain)
