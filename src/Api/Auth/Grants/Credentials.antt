-- ===== src/Api/Auth/Grants/Credentials.antt =====
-- internal/api/auth.go: the credentials of a request, and the client that they belong to.
use omni_blob.Base.{
  ◌≡◌, refl, sym, ap, ◌∙◌, ◌≢◌, ◌↔◌, ◌⊎◌, inl, inr, true, ◌&&◌, Option, none, some, [], ◌∷◌, arith,
  Bool-cases, Text, or_else, trim_space, lookup,
}
use mathlib.Core.Path.{subst}
use omni_blob.Config.{LdapConfig}
use omni_blob.Http.{Request, header}
use omni_blob.Api.Auth.{
  ClientInfo, LdapServer, Combos, authenticate_ldap, is_complete, combo_key, ldap_client,
  ldap_fallback, match_client, client_key, user_pass,
}
use omni_blob.Api.Auth.Grants.{
  GivesUser, GivesKey, Belongs, or_else-FirstGiven, FirstGiven-one, last-FirstGiven, given-true,
  true-given,
}

some_one : (c d : ClientInfo) → some c ≡ some d → c ≡ d
some_one c d e = cc

client_key-GivesKey : (r : Request) → GivesKey r (client_key r)
unfolding client_key
client_key-GivesKey r =
    or_else-FirstGiven (trim_space (header r "X-API-KEY"))
      (or_else (trim_space (header r "X-App-Key")) (trim_space (header r "X-Api-Key")))
      (trim_space (header r "X-App-Key") ∷ trim_space (header r "X-Api-Key") ∷ [])
      (or_else-FirstGiven (trim_space (header r "X-App-Key")) (trim_space (header r "X-Api-Key"))
        (trim_space (header r "X-Api-Key") ∷ [])
        (last-FirstGiven (trim_space (header r "X-Api-Key"))))

-- A pair that is given, or another one.
abbrev pair_or : Option (Text × Text) → Text × Text → Text × Text
pair_or none d = d
pair_or (some up) d = up

pair_or-given :
    (o : Option (Text × Text)) (a b : Text)
    → (o ≡ some ((pair_or o (a, b)).0, (pair_or o (a, b)).1))
      ⊎ ((o ≡ none) × ((pair_or o (a, b)).0 ≡ a) × ((pair_or o (a, b)).1 ≡ b))
pair_or-given none a b = inr (refl, refl, refl)
pair_or-given (some up) a b = inl refl

pair_or-one :
    (o : Option (Text × Text)) (a b u p : Text)
    → (o ≡ some (u, p)) ⊎ ((o ≡ none) × (u ≡ a) × (p ≡ b))
    → pair_or o (a, b) ≡ (u, p)
pair_or-one none a b u p (inl e) = absurd (ground (arith, e))
pair_or-one none a b u p (inr (e, f, g)) = ap (λ x. (x, b)) (sym f) ∙ ap (λ x. (u, x)) (sym g)
pair_or-one (some up) a b u p (inl e) = ap (λ o. pair_or o up) e
pair_or-one (some up) a b u p (inr (e, f, g)) = absurd (ground (arith, e))

pair_or_elim :
    (o : Option (Text × Text)) (d : Text × Text)
    → (elim o as (λ x. Text × Text) [ none ↦ d | some up ↦ up ]) ≡ pair_or o d
pair_or_elim none d = refl
pair_or_elim (some up) d = refl

user_pass_lem :
    (r : Request)
    → user_pass r
      ≡ pair_or r.basic_auth
          (trim_space (header r "X-API-USER"), trim_space (header r "X-API-PASS"))
unfolding user_pass
user_pass_lem r =
    pair_or_elim r.basic_auth
      (trim_space (header r "X-API-USER"), trim_space (header r "X-API-PASS"))

user_pass-GivesUser : (r : Request) → GivesUser r (user_pass r).0 (user_pass r).1
user_pass-GivesUser r =
    let a = trim_space (header r "X-API-USER") in
    let b = trim_space (header r "X-API-PASS") in
    subst (λ x. GivesUser r x.0 x.1) (sym (user_pass_lem r)) (pair_or-given r.basic_auth a b)

GivesUser-one : (r : Request) (u p : Text) → GivesUser r u p → user_pass r ≡ (u, p)
GivesUser-one r u p g =
    user_pass_lem r
    ∙ pair_or-one r.basic_auth (trim_space (header r "X-API-USER"))
        (trim_space (header r "X-API-PASS")) u p g

found_iff :
    (ldap : LdapServer) (cfg : LdapConfig) (user password : Text) (o : Option ClientInfo)
    (c : ClientInfo)
    → ((elim o as (λ x. Option ClientInfo) [
      | none ↦ ldap_fallback ldap cfg user password
      | some d ↦ some d
    ])
        ≡ some c)
      ↔ ((o ≡ some c)
          ⊎ ((o ≡ none)
              × (cfg.enabled ≡ true)
              × (authenticate_ldap ldap cfg user password ≡ true)
              × (c ≡ ldap_client user)))
unfolding ldap_fallback
found_iff ldap cfg user password (some d) c =
    (λ e. inl e, λ h. elim h [ inl e ↦ e | inr k ↦ absurd (ground (arith, k.0)) ])
found_iff ldap cfg user password none c =
    elim (Bool-cases (cfg.enabled && authenticate_ldap ldap cfg user password)) [
      | inr refused ↦ (
        λ e. absurd (ground (arith, refused, e)),
        λ h. elim h [
          | inl e ↦ absurd (ground (arith, e))
          | inr (n, on, ok, is) ↦ absurd (ground (arith, refused, on, ok))
        ],
      )
      | inl accepted ↦ (
        λ e.
            let same : ldap_client user ≡ c =
              some_one (ldap_client user) c (ground (arith, accepted, e)) in
            inr (refl, ground (arith, accepted), ground (arith, accepted), sym same),
        λ h. elim h [
          | inl e ↦ absurd (ground (arith, e))
          | inr (n, on, ok, is) ↦ ground (arith, accepted, ap some (sym is))
        ],
      )
    ]

credentials_iff :
    (ldap : LdapServer) (cfg : LdapConfig) (m : Combos) (key user password : Text) (c : ClientInfo)
    → (match_client ldap cfg m key user password ≡ some c)
      ↔ ((key ≢ []) × (user ≢ []) × (password ≢ []) × Belongs ldap cfg m key user password c)
unfolding match_client
credentials_iff ldap cfg m key user password c =
    let (there, back) =
      found_iff ldap cfg user password (lookup (combo_key key user password) m) c in
    elim (Bool-cases (is_complete key user password)) [
      | inr missing ↦ rw missing (
        λ e. absurd (ground (arith, e)),
        λ (k, u, p, b).
            absurd
              (ground (arith, missing, true-given key k, true-given user u, true-given password p)),
      )
      | inl whole ↦ rw whole (
        λ e. (
          given-true key (ground (arith, whole)),
          given-true user (ground (arith, whole)),
          given-true password (ground (arith, whole)),
          there e,
        ),
        λ (k, u, p, b). back b,
      )
    ]

pub matched_iff :
    (ldap : LdapServer) (cfg : LdapConfig) (m : Combos) (r : Request) (c : ClientInfo)
    → (match_client ldap cfg m (client_key r) (user_pass r).0 (user_pass r).1 ≡ some c) ↔ (
        (key : Text) × (user : Text) × (password : Text) × GivesKey r key
        × GivesUser r user password
        × (key ≢ [])
        × (user ≢ [])
        × (password ≢ [])
        × Belongs ldap cfg m key user password c)
matched_iff ldap cfg m r c = (
  λ e.
      let (k, u, p, b) =
        (credentials_iff ldap cfg m (client_key r) (user_pass r).0 (user_pass r).1 c).0 e in
      (
        client_key r,
        (user_pass r).0,
        (user_pass r).1,
        client_key-GivesKey r,
        user_pass-GivesUser r,
        k,
        u,
        p,
        b,
      ),
  λ (key, user, password, gk, gu, k, u, p, b).
      let same_key : client_key r ≡ key =
        FirstGiven-one
          (trim_space (header r "X-API-KEY")
            ∷ trim_space (header r "X-App-Key")
            ∷ trim_space (header r "X-Api-Key")
            ∷ [])
          (client_key r) key (client_key-GivesKey r) gk in
      ap (λ x. match_client ldap cfg m (client_key r) x.0 x.1) (GivesUser-one r user password gu)
      ∙ ap (λ t. match_client ldap cfg m t user password) same_key
      ∙ (credentials_iff ldap cfg m key user password c).1 (k, u, p, b),
)
