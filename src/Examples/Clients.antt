-- ===== src/Examples/Clients.antt =====
-- Concrete runs of the authentication (internal/api/auth.go).
use omni_blob.Base.{
  pos, ◌≡◌, refl, ◌≢◌, ◌↔◌, ◌⊎◌, true, false, none, some, [], ◌∷◌, ◌++◌, arith, Any, Text, codes,
  text_eq, lookup, insert,
}
use omni_blob.Config.{LdapConfig, ClientConfig, ServerConfig}
use omni_blob.Http.{Request, canonical, client_ip, header}
use omni_blob.Api.BlockList.{empty_list}
use omni_blob.Api.Auth.{
  ClientInfo, LdapServer, Combos, combo_to_client, client_info, pass, app_auth,
}
use omni_blob.Api.Auth.Grants.{IsGranted}
use omni_blob.Api.Auth.Decides.{app_auth-pass_iff}
use omni_blob.Api.Auth.Combos.{combo_to_client-table, usable, combo_of, ComesFrom, IsDefault}
use omni_blob.Api.Auth.Gaps.{real_ip_trusted, from_address}

abbrev no_ldap : LdapConfig
no_ldap = record {
  enabled = false;
  use_tls = false;
  skip_verify = false;
  server_addr = [];
  base_dn = [];
  bind_dn = [];
  bind_password = [];
  user_filter = [];
  group_search_base_dn = [];
  group_search_filter = [];
}

abbrev pub silent_ldap : LdapServer
silent_ldap = record {
  dial = λ tls skip addr. false;
  bind = λ dn password. false;
  search = λ base filter. none;
  fill_filter = λ filter user. filter ++ user;
}

abbrev police : ClientConfig
police = record {
  name = codes "police";
  api_key = codes "k";
  user = codes "u";
  password = codes "p";
  whitelist_ips = codes "10.0.0.1" ∷ [];
  allowed_modules = codes "paspor" ∷ [];
}

abbrev pub server : ServerConfig
server = record {
  host = [];
  port = pos 8443;
  tls_enabled = false;
  read_timeout_sec = pos 30;
  write_timeout_sec = pos 0;
  max_upload_size_mb = pos 100;
  allowed_extensions = [];
  rate_limit_rpm = pos 100;
  api_key = [];
  api_user = [];
  api_pass = [];
  ldap = no_ldap;
  clients = police ∷ [];
}

abbrev pub table : Combos
table = (codes "k:u:p", client_info police) ∷ []

table_made : combo_to_client server ≡ some table
unfolding combo_to_client lookup insert
table_made = refl

combo_to_client-table_example :
    ((c : ClientConfig)
      → usable c ≡ true
      → Any (λ x. x ≡ c) server.clients
      → lookup (combo_of c) table ≡ some (client_info c))
    × ((j : Text) (d : ClientInfo)
        → lookup j table ≡ some d
        → Any (ComesFrom j d) server.clients ⊎ IsDefault server j d)
combo_to_client-table_example = combo_to_client-table server table table_made

table_given : table ≢ []
table_given e = absurd (ground arith)

-- A request of the client, by the address that a proxy forwards.
abbrev paspor : Request
paspor = record {
  method = codes "GET";
  url_path = codes "/api/v1/paspor/7";
  bucket = codes "paspor";
  headers = (codes "X-Api-Key", codes "k") ∷ (codes "X-Real-Ip", codes "10.0.0.1") ∷ [];
  query = [];
  form = [];
  basic_auth = some (codes "u", codes "p");
  remote_addr = codes "192.168.1.9:5000";
}

app_auth-pass_iff_example :
    ((app_auth silent_ldap no_ldap table false 9 paspor empty_list).1
      ≡ pass (some (client_info police)))
    ↔ ((c : ClientInfo) × (some (client_info police) ≡ some c)
        × IsGranted silent_ldap no_ldap table 9 paspor empty_list c)
app_auth-pass_iff_example =
    app_auth-pass_iff silent_ldap no_ldap table false 9 paspor empty_list
      (some (client_info police)) table_given

paspor_address : client_ip paspor ≡ codes "10.0.0.1"
unfolding client_ip header canonical lookup text_eq
paspor_address = refl

real_ip_given : header paspor "X-Real-IP" ≢ []
unfolding header canonical lookup text_eq
real_ip_given e = absurd (ground arith)

real_ip_trusted_example :
    app_auth silent_ldap no_ldap table false 9 (from_address paspor (codes "8.8.8.8:1")) empty_list
    ≡ app_auth silent_ldap no_ldap table false 9 paspor empty_list
real_ip_trusted_example =
    real_ip_trusted silent_ldap no_ldap table false 9 paspor (codes "8.8.8.8:1") empty_list
      real_ip_given
