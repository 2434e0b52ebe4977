-- ===== src/Examples/Sites.antt =====
-- Concrete runs of the router (internal/api/router.go) and of the listener (internal/api/listener.go).
use omni_blob.Base.{
  ◌*◌, ◌/◌, ◌≡◌, refl, ◌⊎◌, true, false, none, some, List, [], ◌∷◌, arith, codes, text_eq,
  has_prefix, split_on, decimal, lookup,
}
use omni_blob.Http.{Request}
use omni_blob.Config.{SecurityConfig}
use omni_blob.Api.RateLimit.{rate_limit, admit, visit}
use omni_blob.FilePath.{clean}
use omni_blob.Api.BlockList.{empty_list}
use omni_blob.Service.Dashboard.{Machine, Answers}
use omni_blob.Api.Handler.Upload.{with_file}
use omni_blob.Api.Handler.Bulk.{malformed_form}
use omni_blob.Api.Listener.{Incoming, accept}
use omni_blob.Api.Listener.Denials.{Outcome, accept-Outcome}
use omni_blob.Api.Router.{Site, Moment, State, handle}
use omni_blob.Api.Router.Routes.{route_of}
use omni_blob.Api.Router.Access.{Permitted, handle-Permitted}
use omni_blob.Api.Router.Reachable.{IsCalm, here, next, IsWell, Reach-IsWell}
use omni_blob.Api.Router.Open.{from_other, elsewhere, handle-open}
use omni_blob.Examples.Data.{hash, calendar}
use omni_blob.Examples.Orders.{bytewise}
use omni_blob.Examples.Clients.{silent_ldap, server, table}
use omni_blob.Examples.Stores.{config, no_dirs}
use omni_blob.Examples.Links.{json, urls, no_log}
use omni_blob.Examples.Requests.{handler, env, luck, empty_world, part, post}

abbrev direct : SecurityConfig
direct = record {
  enabled = true;
  mode = codes "direct_socket";
  allowed_socket_ips = codes "10.0.0.0/8" ∷ codes "192.168.1.9" ∷ [];
  auth_type = [];
}

abbrev pub machine : Machine
machine = record {
  disk_usage = λ p. none;
  percent = λ a b. decimal (a * 100 / b);
  zero_percent = codes "0";
  calendar = calendar;
  collation = λ a b. true;
}

abbrev site : Site
site = record {
  handler = handler;
  env = env;
  dashboard = record {
    root_path = codes "/srv";
    clients = [];
    migration_enabled = true;
    license_tier = [];
  };
  machine = machine;
  collation = bytewise;
  server = server;
  security = direct;
  storage = config;
  combos = table;
  ldap = silent_ldap;
  json = json;
  urls = urls;
  host = codes "h";
  access_key = codes "ak";
  secret_key = codes "sk";
  has_db = false;
  cwd = none;
  read_dir = no_dirs;
}

abbrev pub all_answered : Answers
all_answered = record {
  stats_up = true;
  count_up = true;
  history_up = true;
  extensions_up = true;
  largest_up = true;
  modules_up = true;
  years_up = true;
  months_up = true;
  groups_up = true;
  totals_up = true;
}

abbrev moment : Moment
moment = record {
  now = 9;
  stamp = codes "t1";
  line_written = true;
  luck = luck;
  form = with_file part;
  bulk_form = malformed_form;
  answers = all_answered;
  tree_up = true;
  lookup_up = true;
  delete_up = true;
}

abbrev start : State
start = record { world = empty_world; limits = []; blocks = empty_list; audit = no_log; logs = [] }

-- An upload without credentials.
handle-Permitted_example :
    ((handle site moment post start).0.world ≡ start.world)
    ⊎ Permitted site moment post start.blocks (route_of post.url_path)
handle-Permitted_example = handle-Permitted site moment post start

moment-IsCalm : IsCalm site (codes "srv") refl moment
moment-IsCalm = ((λ fs c. c, λ fs. refl, refl), tt, refl)

start-IsWell : IsWell site (codes "srv") refl start
unfolding lookup
start-IsWell = ((λ bs n e. absurd (ground arith), λ h o e. absurd (ground arith)), refl)

abbrev uploaded_state : State
uploaded_state = (handle site moment post start).0

Reach-IsWell_example : IsWell site (codes "srv") refl uploaded_state
unfolding handle
Reach-IsWell_example =
    Reach-IsWell site (codes "srv") refl (λ p f fs bs. refl) {st = start} {u = uploaded_state}
      (next uploaded_state moment post here moment-IsCalm refl) start-IsWell

abbrev list_request : Request
list_request = record post {
  method = codes "GET";
  url_path = codes "/api/v1/explorer/list";
  bucket = [];
  headers = (codes "X-Api-Key", codes "k") ∷ [];
}

handle-open_example :
    (handle site moment
      (from_other site moment list_request [] none (codes "6.6.6.6:1"))
      (elsewhere site moment start [] empty_list no_log)).1
    ≡ (handle site moment list_request start).1
unfolding rate_limit route_of lookup text_eq has_prefix clean split_on admit visit
handle-open_example =
    handle-open site moment list_request [] none (codes "6.6.6.6:1") start [] empty_list no_log refl
      refl refl refl

-- A stranger, then an allowed client.
abbrev knocks : List Incoming
knocks =
    (record { remote = some (codes "6.6.6.6:1"); time = codes "t1"; written = true })
    ∷ (record { remote = some (codes "10.1.2.3:1"); time = codes "t2"; written = true })
    ∷ []

accept-Outcome_example :
    Outcome hash json
      (λ r n. false)
      direct
      knocks
      no_log
      (accept hash json (λ r n. false) direct knocks no_log)
accept-Outcome_example = accept-Outcome hash json (λ r n. false) direct knocks no_log
