-- ===== src/Api/Auth/Gaps.antt =====
-- internal/api/auth.go: what the checks of the middleware do not look at.
use omni_blob.Base.{ℕ, ◌≡◌, refl, ◌≢◌, Bool, Option, none, some, [], ◌∷◌, arith, Text, or_else}
use omni_blob.Config.{LdapConfig}
use omni_blob.Http.{Request, client_ip, header, form_value, query_value}
use omni_blob.Api.BlockList.{BlockList, is_ip_blocked}
use omni_blob.Api.Auth.{
  ClientInfo, LdapServer, Combos, match_client, client_key, user_pass, check_client, app_auth,
}

or_else-given : (a x y : Text) → a ≢ [] → or_else a x ≡ or_else a y
or_else-given [] x y h = absurd (h refl)
or_else-given (c ∷ a) x y h = refl

abbrev pub from_address : Request → Text → Request
from_address r addr = record r { remote_addr = addr }

claimed_ip :
    (r : Request) (addr : Text)
    → header r "X-Real-IP" ≢ []
    → client_ip (from_address r addr) ≡ client_ip r
unfolding client_ip header
claimed_ip r addr h = or_else-given (header r "X-Real-IP") _ _ h

check_client-from :
    (has_db : Bool) (now : ℕ) (r : Request) (addr : Text) (s : BlockList) (o : Option ClientInfo)
    → client_ip (from_address r addr) ≡ client_ip r
    → check_client has_db now (from_address r addr) s o ≡ check_client has_db now r s o
unfolding check_client form_value query_value
check_client-from has_db now r addr s none e = rw e
check_client-from has_db now r addr s (some c) e = rw e

-- With the header X-Real-IP the verdict does not depend on the address that the connection comes
-- from: the white list and the block list look at the header alone.
pub real_ip_trusted :
    (ldap : LdapServer) (cfg : LdapConfig) (m : Combos) (has_db : Bool) (now : ℕ) (r : Request)
    (addr : Text) (s : BlockList)
    → header r "X-Real-IP" ≢ []
    → app_auth ldap cfg m has_db now (from_address r addr) s ≡ app_auth ldap cfg m has_db now r s
unfolding app_auth client_key user_pass header
real_ip_trusted ldap cfg [] has_db now r addr s h = refl
real_ip_trusted ldap cfg (k ∷ m) has_db now r addr s h =
    let e = claimed_ip r addr h in
    rw e (
      ground (
        arith,
        check_client-from has_db now r addr (is_ip_blocked (client_ip r) now s).0
            (match_client ldap cfg (k ∷ m) (client_key r) (user_pass r).0 (user_pass r).1) e,
      ))
