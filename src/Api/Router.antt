-- ===== src/Api/Router.antt =====
-- internal/api/router.go: the routes with their authentication, inside the middlewares. A request
-- meets CORS, the rate limiter, the audit log and the mux, in this order; the middlewares for logging
-- and for panics change no state.
pub mod Routes
pub mod Access
pub mod Trail
pub mod Open
pub mod Reachable
use omni_blob.Base.{
  ℕ, zero, suc, ◌+◌, ◌-◌, ◌*◌, ◌/◌, ◌%◌, ◌^◌, ◌≤◌, ◌<◌, String, ◌≡◌, refl, sym, ap, ◌∙◌, fun_ext,
  ◌≢◌, ◌↔◌, ◌⊎◌, inl, inr, Bool, true, false, ◌&&◌, ◌||◌, not, Option, none, some, List, [], ◌∷◌,
  ◌++◌, map, reverse, arith, ltb, leb, ◌==◌, if◌then◌else◌, ltb→lt, lt→ltb, leb→le, ==_iff, tests,
  Bool-cases, Option-cases, length, length-append, take, keep_if, any_of, all_of, head_of, All, Any,
  length-keep_if-le, keep_if-append, All-append, Text, codes, text_eq, text_eq_iff, text_eq_refl,
  text_eq-common, is_empty, or_else, has_prefix, has_prefix-append, has_prefix-common,
  has_prefix_self, has_prefix-map, trim_prefix, has_byte, contains, has_byte-append, drop_while,
  trim_if, is_space, trim_space, lower_byte, to_lower, cons_head, split_on, first_piece, cons_cut,
  cut, digits_fuel, decimal, decimal-digits, decimal-given, contains_text, Assoc, lookup, insert,
  delete, lookup-insert, lookup-delete, delete-insert, is_digit, digits_value, digits_value-decimal,
  ℤ, negate, is_positive, magnitude, signed_within, atoi, pos, negsuc,
}
use omni_blob.Http.{Request, header, query_value}
use omni_blob.Config.{ServerConfig, SecurityConfig, StorageConfig}
use omni_blob.Entity.{VirtualNode, LogFileRsync}
use omni_blob.Storage.{Hash}
use omni_blob.Audit.{Json, AuditLogger, log_connection}
use omni_blob.Presign.{UrlLibrary, Url, validate_presigned_url}
use omni_blob.Repository.BinaryFiles.{Files}
use omni_blob.Repository.VirtualTree.{Collation, get_virtual_directory}
use omni_blob.Repository.Duplicates.{DataQualityStats}
use omni_blob.Service.Dashboard.{
  Machine, Answers, DashboardHandler, DashboardReply, DashboardSummary, StorageAnalytics,
  get_summary, get_analytics, get_quality,
}
use omni_blob.Api.RateLimit.{Limits, rate_limit}
use omni_blob.Api.BlockList.{BlockList}
use omni_blob.Api.Auth.{ClientInfo, LdapServer, Combos, Verdict, pass, reject, app_auth}
use omni_blob.Api.Explorer.{FileNode, ReadDir, Listing, list_directory}
use omni_blob.Api.Handler.{World, Handler, Env, Luck}
use omni_blob.Api.Handler.Upload.{Form, UploadReply, upload}
use omni_blob.Api.Handler.Bulk.{BulkForm, BulkReply, bulk_upload}
use omni_blob.Api.Handler.Serve.{ServeReply, serve_file_by_id, serve_file_by_ref, delete_file}
use omni_blob.Api.Handler.SignedUrls.{PresignReply, handle_presign}
use omni_blob.Api.Router.Routes.{
  Route, static_page, not_found, moved, health, summary, analytics, quality, explorer, presign,
  view, other, route_of,
}
use omni_blob.Api.Router.Routes

-- What NewRouter is given, with the libraries.
pub record Site : Type 0 where
  pub handler : Handler
  pub env : Env
  pub dashboard : DashboardHandler
  pub machine : Machine
  pub collation : Collation
  pub server : ServerConfig
  pub security : SecurityConfig
  pub storage : StorageConfig
  pub combos : Combos
  pub ldap : LdapServer
  pub json : Json
  pub urls : UrlLibrary
  pub host : Text
  pub access_key : Text
  pub secret_key : Text
  pub has_db : Bool
  pub cwd : Option Text
  pub read_dir : Text → ReadDir

-- What happens around one request: its time, the body as it is parsed, and what fails.
pub record Moment : Type 0 where
  pub now : ℕ
  pub stamp : Text
  pub line_written : Bool
  pub luck : Luck
  pub form : Form
  pub bulk_form : BulkForm
  pub answers : Answers
  pub tree_up : Bool
  pub lookup_up : Bool
  pub delete_up : Bool

-- All that requests change or read together.
pub record State : Type 0 where
  pub world : World
  pub limits : Limits
  pub blocks : BlockList
  pub audit : AuditLogger
  pub logs : List LogFileRsync

pub data Reply : Type 0 where
  status : ℕ → Reply
  page : Reply
  uploaded : UploadReply → Reply
  bulk : BulkReply → Reply
  served : ServeReply → Reply
  signed_url : PresignReply → Reply
  listed : Listing → Reply
  summarised : DashboardReply DashboardSummary → Reply
  analysed : DashboardReply StorageAnalytics → Reply
  qualified : DashboardReply DataQualityStats → Reply

abbrev pub name_of : Option ClientInfo → Option Text
name_of none = none
name_of (some c) = some c.name

-- A handler, with the name of the client from the context.
abbrev pub Action : Type 0
Action = Option Text → World → World × Reply

abbrev pub run : Action → Option Text → State → State × Reply
run act client st = let (w, reply) = act client st.world in (record st { world = w }, reply)

abbrev judged : Action → State → BlockList → Verdict → State × Reply
judged act st bl (pass c) = run act (name_of c) (record st { blocks = bl })
judged act st bl (reject n) = (record st { blocks = bl }, status n)

-- AppAuthMiddleware around a handler.
unfoldable pub guarded : Site → Moment → Request → Action → State → State × Reply
guarded s m r act st =
    let (bl, verdict) = app_auth s.ldap s.server.ldap s.combos s.has_db m.now r st.blocks in
    judged act st bl verdict

-- The signature covers the method, the path and the query, and expires by the second.
unfoldable pub is_signed : Site → Moment → Request → Bool
is_signed s m r =
    validate_presigned_url s.urls (m.now / 1000000000) s.secret_key r.method
      (record { path = r.url_path; query = r.query })

-- A signed URL comes first, then the application's own authentication.
unfoldable pub secured : Site → Moment → Request → Action → State → State × Reply
unfolding guarded is_signed
secured s m r act st =
    let checked = guarded s m r act st in if is_signed s m r then run act none st else checked

unfoldable pub do_upload : Site → Moment → Request → Action
do_upload s m r client w =
    let (w', reply) = upload s.handler s.env m.luck r client m.form w in (w', uploaded reply)

unfoldable pub do_bulk : Site → Moment → Request → Action
do_bulk s m r client w =
    let (w', reply) = bulk_upload s.handler s.env r client m.bulk_form w in (w', bulk reply)

unfoldable pub do_view : Site → Moment → Request → Action
do_view s m r client w = (w, served (serve_file_by_ref s.handler s.env m.luck r w))

unfoldable pub do_serve : Site → Moment → Request → Action
do_serve s m r client w = (w, served (serve_file_by_id s.handler s.env m.luck r r.url_path w))

unfoldable pub do_delete : Site → Moment → Request → Action
do_delete s m r client w =
    let (w', n) = delete_file m.lookup_up m.delete_up r.url_path w in (w', status n)

unfoldable pub do_presign : Site → Moment → Request → Action
do_presign s m r client w =
    (w, signed_url (handle_presign s.urls (m.now / 1000000000) s.host s.access_key s.secret_key r))

abbrev file_node : VirtualNode → FileNode
file_node v = record {
  name = v.name;
  path = v.path;
  is_directory = v.is_directory;
  size = v.size;
  modified_time = v.modified_time;
}

abbrev file_nodes : Option (List VirtualNode) → Option (List FileNode)
file_nodes none = none
file_nodes (some vs) = some (map file_node vs)

unfoldable pub explore : Site → Moment → Request → Files → Listing
explore s m r t =
    list_directory s.storage s.cwd s.read_dir
      (λ prefix. file_nodes (get_virtual_directory s.collation m.tree_up prefix t)) m.now
      (query_value r "target") (query_value r "path")

abbrev pub in_bucket : Request → Text → Request
in_bucket r b = record r { bucket = b }

-- The mux: the health check answers without looking at the database.
unfoldable pub serve_route : Site → Moment → Request → Route → State → State × Reply
unfolding guarded secured do_upload do_bulk do_view do_serve do_delete do_presign explore
serve_route s m r static_page st = (st, page)
serve_route s m r not_found st = (st, status 404)
serve_route s m r moved st = (st, status 301)
serve_route s m r health st = (st, status 200)
serve_route s m r summary st =
    (st, summarised (get_summary s.machine m.answers s.dashboard st.world.files st.logs))
serve_route s m r analytics st = (st, analysed (get_analytics s.machine m.answers st.world.files))
serve_route s m r quality st = (st, qualified (get_quality s.machine m.answers st.world.files))
serve_route s m r explorer st = (st, listed (explore s m r st.world.files))
serve_route s m r presign st = guarded s m r (do_presign s m r) st
serve_route s m r (Routes.upload b) st =
    secured s m (in_bucket r b) (do_upload s m (in_bucket r b)) st
serve_route s m r (Routes.bulk_upload b) st =
    guarded s m (in_bucket r b) (do_bulk s m (in_bucket r b)) st
serve_route s m r (view b) st = secured s m (in_bucket r b) (do_view s m (in_bucket r b)) st
serve_route s m r (other b) st =
    if text_eq r.method (codes "DELETE")
    then guarded s m (in_bucket r b) (do_delete s m (in_bucket r b)) st
    else secured s m (in_bucket r b) (do_serve s m (in_bucket r b)) st

abbrev audit_status : SecurityConfig → Text → Text
audit_status cfg xff =
    if text_eq cfg.mode (codes "behind_proxy")
    then codes "trusted"
    else if is_empty xff
    then codes "N/A"
    else codes "ignored: proxy IP trusted, but XFF format invalid/tampered or direct_socket mode"

abbrev forwarded_text : SecurityConfig → Text → Text
forwarded_text cfg xff =
    if is_empty xff then codes "N/A" else xff ++ (codes " (" ++ (audit_status cfg xff ++ codes ")"))

-- auditMiddleware
unfoldable pub audit_request : Site → Moment → Request → AuditLogger → AuditLogger
audit_request s m r a =
    if not s.security.enabled
    then a
    else (log_connection s.env.sha s.json m.line_written m.stamp r.remote_addr
        (forwarded_text s.security (header r "X-Forwarded-For")) (codes "L7_ACCEPTED")
        (codes "Socket IP allowed, processing HTTP") a).0

abbrev pub rpm_of : ℤ → ℕ
rpm_of (pos n) = n
rpm_of (negsuc n) = 0

abbrev pub is_preflight : Request → Bool
is_preflight r = text_eq r.method (codes "OPTIONS")

abbrev pub limited : Site → Moment → Request → State → Limits → Option ℕ → State × Reply
limited s m r st lim (some n) = (record st { limits = lim }, status n)
limited s m r st lim none =
    serve_route s m r (route_of r.url_path)
      (record st { limits = lim; audit = audit_request s m r st.audit })

-- The handler that NewRouter returns.
unfoldable pub handle : Site → Moment → Request → State → State × Reply
unfolding serve_route audit_request
handle s m r st =
    let (lim, refused) = rate_limit (rpm_of s.server.rate_limit_rpm) m.now r st.limits in
    if is_preflight r then (st, status 200) else limited s m r st lim refused
