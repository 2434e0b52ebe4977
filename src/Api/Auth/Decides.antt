-- ===== src/Api/Auth/Decides.antt =====
-- internal/api/auth.go: which requests the middleware lets through, and its other answers.
use omni_blob.Base.{
  ℕ, ◌+◌, ◌≤◌, ◌<◌, ◌≡◌, refl, sym, ap, ◌∙◌, ◌≢◌, ◌↔◌, inl, inr, Bool, true, false, Option, none,
  some, List, [], ◌∷◌, arith, Bool-cases, All, Text,
}
use omni_blob.Config.{LdapConfig}
use omni_blob.Http.{Request, client_ip}
use omni_blob.Api.BlockList.{BlockList, is_ip_blocked, ban_duration}
use omni_blob.Api.BlockList.Bans.{IsBannedTo, step-IsBannedTo, banned_blocked, checks, fails, step}
use omni_blob.Api.Auth.Grants.{IsGranted}
use omni_blob.Api.Auth.Grants.Credentials.{matched_iff}
use omni_blob.Api.Auth.Grants.Modules.{listed_iff, allowed_iff}
use omni_blob.Api.Auth.{
  ClientInfo, LdapServer, Combos, pass, reject, match_client, client_key, user_pass, ip_listed,
  bucket_allowed, requested_bucket, check_client, authorize, app_auth, auth_failures,
  whitelist_failures,
}

-- The tests that a request with the client `c` passes.
record PassesTests (ldap : LdapServer) (cfg : LdapConfig) (m : Combos) (now : ℕ) (r : Request)
    (s : BlockList) (c : ClientInfo) : Type 0 where
  matched : match_client ldap cfg m (client_key r) (user_pass r).0 (user_pass r).1 ≡ some c
  unblocked : (is_ip_blocked (client_ip r) now s).1 ≡ false
  listed : ip_listed c (client_ip r) ≡ true
  allowed : bucket_allowed c (requested_bucket r) ≡ true

PassesTests-IsGranted :
    (ldap : LdapServer) (cfg : LdapConfig) (m : Combos) (now : ℕ) (r : Request) (s : BlockList)
    (c : ClientInfo)
    → PassesTests ldap cfg m now r s c ↔ IsGranted ldap cfg m now r s c
PassesTests-IsGranted ldap cfg m now r s c = (
  λ t. (
    (matched_iff ldap cfg m r c).0 t.matched,
    t.unblocked,
    (listed_iff c (client_ip r)).0 t.listed,
    (allowed_iff c r).0 t.allowed,
  ),
  λ (k, u, l, a). record {
    matched = (matched_iff ldap cfg m r c).1 k;
    unblocked = u;
    listed = (listed_iff c (client_ip r)).1 l;
    allowed = (allowed_iff c r).1 a;
  },
)

check_client-pass :
    (has_db : Bool) (now : ℕ) (r : Request) (s : BlockList) (o : Option ClientInfo)
    (v : Option ClientInfo)
    → (check_client has_db now r s o).1 ≡ pass v
    → (c : ClientInfo) × (v ≡ some c)
      × (o ≡ some c)
      × (ip_listed c (client_ip r) ≡ true)
      × (bucket_allowed c (requested_bucket r) ≡ true)
unfolding check_client
check_client-pass has_db now r s none v e = cc
check_client-pass has_db now r s (some c) v e = (c, ground arith, refl, ground arith, ground arith)

module _ (ldap : LdapServer) (cfg : LdapConfig) (m : Combos) (has_db : Bool) (now : ℕ) (r : Request)
    (s : BlockList) where
  authorize-pass :
      (v : Option ClientInfo)
      → (authorize ldap cfg m has_db now r s).1 ≡ pass v
      → (c : ClientInfo) × (v ≡ some c) × PassesTests ldap cfg m now r s c
  unfolding authorize
  authorize-pass v e = elim (Bool-cases (is_ip_blocked (client_ip r) now s).1) [
    | inl b ↦ absurd (blocked_rejects b)
    | inr b ↦
        let (c, ev, eo, el, ea) =
          check_client-pass has_db now r (is_ip_blocked (client_ip r) now s).0
            (match_client ldap cfg m (client_key r) (user_pass r).0 (user_pass r).1) v
            (rw (b, authorize) at e) in
        (c, ev, record { matched = eo; unblocked = b; listed = el; allowed = ea })
  ]
    where
      blocked_rejects : (is_ip_blocked (client_ip r) now s).1 ≡ true → ⊥
      blocked_rejects b = ground arith

  granted-pass :
      (c : ClientInfo)
      → PassesTests ldap cfg m now r s c
      → (authorize ldap cfg m has_db now r s).1 ≡ pass (some c)
  unfolding authorize check_client
  granted-pass c g = ground arith

-- With a client configured, a request goes on to the handler exactly when it has a key, a user and a
-- password whose text joined by colons is the entry of a client (or of none, and LDAP is on and accepts
-- user and password), its address is not blocked and is on the client's white list if there is one, and
-- the client may use the module that is checked: the one of the path, or where that is absent or
-- "files" the first that the form or the query names, or "general"; the module "files" is free for every
-- client. Then that client is in the context.
pub app_auth-pass_iff :
    (ldap : LdapServer) (cfg : LdapConfig) (m : Combos) (has_db : Bool) (now : ℕ) (r : Request)
    (s : BlockList) (v : Option ClientInfo)
    → m ≢ []
    → ((app_auth ldap cfg m has_db now r s).1 ≡ pass v)
      ↔ ((c : ClientInfo) × (v ≡ some c) × IsGranted ldap cfg m now r s c)
unfolding app_auth
app_auth-pass_iff ldap cfg [] has_db now r s v h = absurd (h refl)
app_auth-pass_iff ldap cfg (k ∷ m) has_db now r s v h = (
  λ e.
      let (c, is, tests) = authorize-pass ldap cfg (k ∷ m) has_db now r s v e in
      (c, is, (PassesTests-IsGranted ldap cfg (k ∷ m) now r s c).0 tests),
  λ (c, is, g).
      granted-pass ldap cfg (k ∷ m) has_db now r s c
        ((PassesTests-IsGranted ldap cfg (k ∷ m) now r s c).1 g)
      ∙ ap pass (sym is),
)

-- Requests with the time of each, as they are served.
unfoldable pub serve_auth :
    LdapServer → LdapConfig → Combos → Bool → List (ℕ × Request) → BlockList → BlockList
serve_auth ldap cfg m has_db [] s = s
serve_auth ldap cfg m has_db ((now, r) ∷ rs) s =
    serve_auth ldap cfg m has_db rs (app_auth ldap cfg m has_db now r s).0

check_client-keeps_ban :
    (has_db : Bool) (now : ℕ) (r : Request) (s : BlockList) (o : Option ClientInfo) (ip : Text)
    (t : ℕ)
    → IsBannedTo ip (t + ban_duration) s
    → t ≤ now
    → now < t + ban_duration
    → IsBannedTo ip (t + ban_duration) (check_client has_db now r s o).0
unfolding check_client step
check_client-keeps_ban has_db now r s none ip t h a b =
    step-IsBannedTo s (fails (client_ip r) auth_failures has_db now) ip t h a b
check_client-keeps_ban has_db now r s (some c) ip t h a b =
    elim (Bool-cases (ip_listed c (client_ip r))) [
      | inl listed ↦ rw (listed, check_client) h
      | inr unlisted ↦
          rw (unlisted, check_client)
            (step-IsBannedTo s (fails (client_ip r) whitelist_failures has_db now) ip t h a b)
    ]

app_auth_lem :
    (ldap : LdapServer) (cfg : LdapConfig) (m : Combos) (has_db : Bool)
    → m ≢ []
    → app_auth ldap cfg m has_db ≡ authorize ldap cfg m has_db
unfolding app_auth
app_auth_lem ldap cfg [] has_db h = absurd (h refl)
app_auth_lem ldap cfg (k ∷ m) has_db h = refl

module _ (ldap : LdapServer) (cfg : LdapConfig) (m : Combos) (has_db : Bool) (ip : Text)
    (t : ℕ) where
  authorize-keeps_ban :
      (now : ℕ) (r : Request) (s : BlockList)
      → IsBannedTo ip (t + ban_duration) s
      → t ≤ now
      → now < t + ban_duration
      → IsBannedTo ip (t + ban_duration) (authorize ldap cfg m has_db now r s).0
  unfolding authorize step
  authorize-keeps_ban now r s h a b =
      let checked = step-IsBannedTo s (checks (client_ip r) now) ip t h a b in
      elim (Bool-cases (is_ip_blocked (client_ip r) now s).1) [
        | inl blocked ↦ rw (blocked, authorize) checked
        | inr free ↦
            rw (free, authorize)
              (check_client-keeps_ban has_db now r (is_ip_blocked (client_ip r) now s).0
                (match_client ldap cfg m (client_key r) (user_pass r).0 (user_pass r).1) ip t
                checked a b)
      ]

  authorize-locked :
      (now : ℕ) (r : Request) (s : BlockList)
      → IsBannedTo ip (t + ban_duration) s
      → now < t + ban_duration
      → client_ip r ≡ ip
      → (authorize ldap cfg m has_db now r s).1 ≡ reject 429
  unfolding authorize
  authorize-locked now r s h b e = rw (e, banned_blocked s ip (t + ban_duration) now h b)

  serve_auth-keeps_ban :
      (rs : List (ℕ × Request)) (s : BlockList)
      → m ≢ []
      → IsBannedTo ip (t + ban_duration) s
      → All (λ q. (t ≤ q.0) × (q.0 < t + ban_duration)) rs
      → IsBannedTo ip (t + ban_duration) (serve_auth ldap cfg m has_db rs s)
  unfolding serve_auth
  serve_auth-keeps_ban [] s n h w = h
  serve_auth-keeps_ban ((now, r) ∷ rs) s n h w =
      serve_auth-keeps_ban rs (app_auth ldap cfg m has_db now r s).0 n
        (rw (app_auth_lem ldap cfg m has_db n) (authorize-keeps_ban now r s h w.0.0 w.0.1)) w.1

-- With a client configured, an address that is banned until 30 minutes after `t` is answered 429
-- in that time, with right credentials too, whatever requests of any addresses are served in
-- between.
pub banned_address_rejected :
    (ldap : LdapServer) (cfg : LdapConfig) (m : Combos) (has_db : Bool) (ip : Text) (t now : ℕ)
    (s : BlockList) (rs : List (ℕ × Request)) (r : Request)
    → m ≢ []
    → IsBannedTo ip (t + ban_duration) s
    → All (λ q. (t ≤ q.0) × (q.0 < t + ban_duration)) rs
    → now < t + ban_duration
    → client_ip r ≡ ip
    → (app_auth ldap cfg m has_db now r (serve_auth ldap cfg m has_db rs s)).1 ≡ reject 429
banned_address_rejected ldap cfg m has_db ip t now s rs r n h w b e =
    rw (app_auth_lem ldap cfg m has_db n) (
      authorize-locked ldap cfg m has_db ip t now r (serve_auth ldap cfg m has_db rs s)
        (serve_auth-keeps_ban ldap cfg m has_db ip t rs s n h w) b e)
