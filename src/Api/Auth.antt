-- ===== src/Api/Auth.antt =====
-- internal/api/auth.go: authentication of each application by key, user and password, with the
-- block list, the white list of addresses and the modules that an application may use. The LDAP
-- library and server are a parameter.
pub mod Grants
pub mod Decides
pub mod Combos
pub mod Gaps
use omni_blob.Base.{
  ℕ, zero, suc, ◌+◌, ◌-◌, ◌*◌, ◌/◌, ◌%◌, ◌^◌, ◌≤◌, ◌<◌, String, ◌≡◌, refl, sym, ap, ◌∙◌, fun_ext,
  ◌≢◌, ◌↔◌, ◌⊎◌, inl, inr, Bool, true, false, ◌&&◌, ◌||◌, not, Option, none, some, List, [], ◌∷◌,
  ◌++◌, map, reverse, arith, ltb, leb, ◌==◌, if◌then◌else◌, ltb→lt, lt→ltb, leb→le, ==_iff, tests,
  Bool-cases, Option-cases, length, length-append, take, keep_if, any_of, all_of, head_of, All,
  length-keep_if-le, keep_if-append, All-append, Text, codes, text_eq, text_eq_iff, text_eq_refl,
  is_empty, or_else, has_prefix, has_prefix-append, trim_prefix, has_byte, contains, drop_while,
  trim_if, is_space, trim_space, lower_byte, to_lower, cons_head, split_on, first_piece, decimal,
  contains_text, Assoc, lookup, insert, delete, lookup-insert, lookup-delete,
}
use omni_blob.Config.{LdapConfig, ClientConfig, ServerConfig}
use omni_blob.Http.{Request, client_ip, header, form_value, query_value}
use omni_blob.Api.BlockList.{BlockList, is_ip_blocked, record_failed_attempt}

pub record ClientInfo : Type 0 where
  pub name : Text
  pub user : Text
  pub password : Text
  pub allowed_modules : List Text
  pub whitelist_ips : List Text

-- github.com/go-ldap: whether a connection is made, whether a bind succeeds, the names that a search
-- finds (`none` for an error), and the escaping and filling in of the filter.
pub record LdapServer : Type 0 where
  pub dial : Bool → Bool → Text → Bool
  pub bind : Text → Text → Bool
  pub search : Text → Text → Option (List Text)
  pub fill_filter : Text → Text → Text

unfoldable pub bind_service : LdapServer → LdapConfig → Bool
bind_service ldap cfg =
    if not (is_empty cfg.bind_dn) && not (is_empty cfg.bind_password)
    then ldap.bind cfg.bind_dn cfg.bind_password
    else true

unfoldable pub bind_found : LdapServer → Option (List Text) → Text → Bool
bind_found ldap none pass = false
bind_found ldap (some []) pass = false
bind_found ldap (some (dn ∷ dns)) pass = ldap.bind dn pass

unfoldable pub authenticate_ldap : LdapServer → LdapConfig → Text → Text → Bool
unfolding bind_service bind_found
authenticate_ldap ldap cfg username password =
    if is_empty username || is_empty password
    then false
    else if not (ldap.dial cfg.use_tls cfg.skip_verify cfg.server_addr)
    then false
    else if not (bind_service ldap cfg)
    then false
    else bind_found ldap (ldap.search cfg.base_dn (ldap.fill_filter cfg.user_filter username))
        password

-- apiKey + ":" + user + ":" + password
abbrev pub combo_key : Text → Text → Text → Text
combo_key key user pass = key ++ (b':' ∷ (user ++ (b':' ∷ pass)))

abbrev pub Combos : Type 0
Combos = Assoc ClientInfo

abbrev pub is_complete : Text → Text → Text → Bool
is_complete key user pass = not (is_empty key) && not (is_empty user) && not (is_empty pass)

-- `none` where the program stops: two entries have one combination.
unfoldable pub add_combo : Text → ClientInfo → Combos → Option Combos
add_combo key c m = elim (lookup key m) [ none ↦ some (insert key c m) | some d ↦ none ]

abbrev pub client_info : ClientConfig → ClientInfo
client_info c = record {
  name = c.name;
  user = c.user;
  password = c.password;
  allowed_modules = c.allowed_modules;
  whitelist_ips = c.whitelist_ips;
}

unfoldable pub add_client : ClientConfig → Combos → Option Combos
unfolding add_combo
add_client c m =
    if is_complete c.api_key c.user c.password
    then add_combo (combo_key c.api_key c.user c.password) (client_info c) m
    else some m

unfoldable pub add_clients : List ClientConfig → Combos → Option Combos
unfolding add_client
add_clients [] m = some m
add_clients (c ∷ cs) m = elim (add_client c m) [ none ↦ none | some m' ↦ add_clients cs m' ]

abbrev pub default_client : ServerConfig → ClientInfo
default_client cfg = record {
  name = codes "default-app";
  user = cfg.api_user;
  password = cfg.api_pass;
  allowed_modules = codes "*" ∷ [];
  whitelist_ips = [];
}

unfoldable pub add_global : ServerConfig → Combos → Option Combos
unfolding add_combo
add_global cfg m =
    if is_complete cfg.api_key cfg.api_user cfg.api_pass
    then add_combo (combo_key cfg.api_key cfg.api_user cfg.api_pass) (default_client cfg) m
    else some m

-- The table that AppAuthMiddleware builds when it is set up.
unfoldable pub combo_to_client : ServerConfig → Option Combos
unfolding add_clients add_global
combo_to_client cfg = elim (add_clients cfg.clients []) [ none ↦ none | some m ↦ add_global cfg m ]

-- The credentials of a request.
unfoldable pub client_key : Request → Text
client_key r =
    or_else (trim_space (header r "X-API-KEY"))
      (or_else (trim_space (header r "X-App-Key")) (trim_space (header r "X-Api-Key")))

unfoldable pub user_pass : Request → Text × Text
user_pass r = elim r.basic_auth [
  | none ↦ (trim_space (header r "X-API-USER"), trim_space (header r "X-API-PASS"))
  | some up ↦ up
]

abbrev pub ldap_client : Text → ClientInfo
ldap_client user = record {
  name = codes "ldap-user";
  user = user;
  password = [];
  allowed_modules = codes "*" ∷ [];
  whitelist_ips = [];
}

unfoldable pub ldap_fallback : LdapServer → LdapConfig → Text → Text → Option ClientInfo
ldap_fallback ldap cfg user pass =
    if cfg.enabled && authenticate_ldap ldap cfg user pass then some (ldap_client user) else none

unfoldable pub match_client :
    LdapServer → LdapConfig → Combos → Text → Text → Text → Option ClientInfo
unfolding ldap_fallback
match_client ldap cfg m key user pass =
    if is_complete key user pass
    then elim (lookup (combo_key key user pass) m) [
      | none ↦ ldap_fallback ldap cfg user pass
      | some c ↦ some c
    ]
    else none

-- The bucket that the request is checked for.
unfoldable pub requested_bucket : Request → Text
requested_bucket r =
    if is_empty r.bucket || text_eq r.bucket (codes "files")
    then or_else (trim_space (form_value r "module")) (
        or_else (trim_space (form_value r "modul"))
          (or_else (trim_space (query_value r "module")) (codes "general")))
    else r.bucket

unfoldable pub ip_listed : ClientInfo → Text → Bool
ip_listed c ip =
    if any_of (λ x. true) c.whitelist_ips then contains_text c.whitelist_ips ip else true

unfoldable pub module_allowed : List Text → Text → Bool
module_allowed ms bucket = any_of (λ x. text_eq x (codes "*") || text_eq x bucket) ms

-- A bucket that is still called "files", from the form, is not checked.
unfoldable pub bucket_allowed : ClientInfo → Text → Bool
unfolding module_allowed
bucket_allowed c bucket =
    if not (is_empty bucket) && not (text_eq bucket (codes "files"))
    then module_allowed c.allowed_modules bucket
    else true

-- The handler goes on, with the client in the context, or a status is answered.
pub data Verdict : Type 0 where
  pass : Option ClientInfo → Verdict
  reject : ℕ → Verdict

abbrev pub auth_failures : Text
auth_failures = codes "Multiple failed authentication attempts"

abbrev pub whitelist_failures : Text
whitelist_failures = codes "Multiple whitelist bypass attempts"

unfoldable pub check_bucket : Request → ClientInfo → BlockList → BlockList × Verdict
unfolding requested_bucket bucket_allowed
check_bucket r c s =
    (s, if bucket_allowed c (requested_bucket r) then pass (some c) else reject 403)

unfoldable pub check_client :
    Bool → ℕ → Request → BlockList → Option ClientInfo → BlockList × Verdict
unfolding check_bucket ip_listed
check_client has_db now r s none =
    ((record_failed_attempt (client_ip r) auth_failures has_db now s).0, reject 401)
check_client has_db now r s (some c) =
    if ip_listed c (client_ip r)
    then check_bucket r c s
    else ((record_failed_attempt (client_ip r) whitelist_failures has_db now s).0, reject 403)

unfoldable pub authorize :
    LdapServer → LdapConfig → Combos → Bool → ℕ → Request → BlockList → BlockList × Verdict
unfolding check_client match_client
authorize ldap cfg m has_db now r s =
    let up = user_pass r in
    let matched = match_client ldap cfg m (client_key r) up.0 up.1 in
    let (s', blocked) = is_ip_blocked (client_ip r) now s in
    if blocked then (s', reject 429) else check_client has_db now r s' matched

-- The handler that AppAuthMiddleware returns. With no client configured every request passes.
unfoldable pub app_auth :
    LdapServer → LdapConfig → Combos → Bool → ℕ → Request → BlockList → BlockList × Verdict
unfolding authorize
app_auth ldap cfg [] has_db now r s = (s, pass none)
app_auth ldap cfg (c ∷ m) has_db now r s = authorize ldap cfg (c ∷ m) has_db now r s
