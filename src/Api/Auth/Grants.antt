-- ===== src/Api/Auth/Grants.antt =====
-- internal/api/auth.go: what a request has to show, said of its headers, its form and the table of
-- clients.
pub mod Credentials
pub mod Modules
use omni_blob.Base.{
  ℕ, zero, suc, ◌+◌, ◌-◌, ◌*◌, ◌/◌, ◌%◌, ◌^◌, ◌≤◌, ◌<◌, String, ◌≡◌, refl, sym, ap, ◌∙◌, fun_ext,
  ◌≢◌, ◌↔◌, ◌⊎◌, inl, inr, Bool, true, false, ◌&&◌, ◌||◌, not, Option, none, some, List, [], ◌∷◌,
  ◌++◌, map, reverse, arith, ltb, leb, ◌==◌, if◌then◌else◌, ltb→lt, lt→ltb, leb→le, ==_iff, tests,
  Bool-cases, Option-cases, length, length-append, take, keep_if, any_of, all_of, head_of, All, Any,
  length-keep_if-le, keep_if-append, All-append, Text, codes, text_eq, text_eq_iff, text_eq_refl,
  text_eq-common, is_empty, or_else, has_prefix, has_prefix-append, has_prefix-common,
  has_prefix_self, has_prefix-map, trim_prefix, has_byte, contains, has_byte-append, drop_while,
  trim_if, is_space, trim_space, lower_byte, to_lower, cons_head, split_on, first_piece, cons_cut,
  cut, digits_fuel, decimal, decimal-digits, decimal-given, contains_text, Assoc, lookup, insert,
  delete, lookup-insert, lookup-delete, delete-insert, is_digit, digits_value, digits_value-decimal,
  ℤ, negate, is_positive, magnitude, signed_within, atoi, pos, negsuc,
}
use mathlib.Core.Path.{subst}
use omni_blob.Config.{LdapConfig}
use omni_blob.Http.{Request, client_ip, header, form_value, query_value}
use omni_blob.Api.BlockList.{BlockList, is_ip_blocked}
use omni_blob.Api.Auth.{
  ClientInfo, LdapServer, Combos, authenticate_ldap, is_complete, combo_key, ldap_client,
  ldap_fallback, match_client, client_key, user_pass, ip_listed, module_allowed, bucket_allowed,
  requested_bucket,
}

-- The first text of the list that is not empty, and empty where all are.
abbrev pub FirstGiven : List Text → Text → Type 0
FirstGiven [] t = t ≡ []
FirstGiven (x ∷ xs) t = ((x ≢ []) × (t ≡ x)) ⊎ ((x ≡ []) × FirstGiven xs t)

-- What the request gives as user and password: basic authentication, or two headers.
abbrev pub GivesUser : Request → Text → Text → Type 0
GivesUser r user password =
    (r.basic_auth ≡ some (user, password))
    ⊎ ((r.basic_auth ≡ none)
        × (user ≡ trim_space (header r "X-API-USER"))
        × (password ≡ trim_space (header r "X-API-PASS")))

-- What the request gives as key.
abbrev pub GivesKey : Request → Text → Type 0
GivesKey r = FirstGiven (
    trim_space (header r "X-API-KEY")
    ∷ trim_space (header r "X-App-Key")
    ∷ trim_space (header r "X-Api-Key")
    ∷ [])

-- The module that is checked: the one of the path, or where that is absent or "files" the first that
-- the form or the query names, or "general".
abbrev pub ChecksModule : Request → Text → Type 0
ChecksModule r b =
    ((r.bucket ≢ []) × (r.bucket ≢ codes "files") × (b ≡ r.bucket))
    ⊎ (((r.bucket ≡ []) ⊎ (r.bucket ≡ codes "files"))
        × FirstGiven
            (trim_space (form_value r "module")
              ∷ trim_space (form_value r "modul")
              ∷ trim_space (query_value r "module")
              ∷ codes "general"
              ∷ [])
            b)

-- Key, user and password, joined by colons, are the entry of the client, or there is none, LDAP is on
-- and accepts user and password, and the client is one that may use every module.
abbrev pub Belongs : LdapServer → LdapConfig → Combos → Text → Text → Text → ClientInfo → Type 0
Belongs ldap cfg m key user password c =
    let entry = lookup (key ++ (b':' ∷ (user ++ (b':' ∷ password)))) m in
    (entry ≡ some c)
    ⊎ ((entry ≡ none)
        × (cfg.enabled ≡ true)
        × (authenticate_ldap ldap cfg user password ≡ true)
        × (c ≡ record {
          name = codes "ldap-user";
          user = user;
          password = [];
          allowed_modules = codes "*" ∷ [];
          whitelist_ips = [];
        }))

-- What a request with the client `c` has to meet: complete credentials that belong to the client, an
-- address that is not blocked and that the client's white list names if it has one, and a module that
-- the client may use, where the module "files", which only the form or the query can name, is free.
abbrev pub IsGranted :
    LdapServer → LdapConfig → Combos → ℕ → Request → BlockList → ClientInfo → Type 0
IsGranted ldap cfg m now r s c =
    ((key : Text) × (user : Text) × (password : Text) × GivesKey r key
      × GivesUser r user password
      × (key ≢ [])
      × (user ≢ [])
      × (password ≢ [])
      × Belongs ldap cfg m key user password c)
    × ((is_ip_blocked (client_ip r) now s).1 ≡ false)
    × ((c.whitelist_ips ≡ []) ⊎ Any (λ x. x ≡ client_ip r) c.whitelist_ips)
    × ((b : Text) × ChecksModule r b
        × ((b ≡ codes "files") ⊎ Any (λ x. (x ≡ codes "*") ⊎ (x ≡ b)) c.allowed_modules))

pub or_else-FirstGiven :
    (x t : Text) (xs : List Text) → FirstGiven xs t → FirstGiven (x ∷ xs) (or_else x t)
or_else-FirstGiven [] t xs f = inr (refl, f)
or_else-FirstGiven (c ∷ x) t xs f = inl ((λ e. absurd (ground (arith, e))), refl)

-- There is one such text.
pub FirstGiven-one : (xs : List Text) (t u : Text) → FirstGiven xs t → FirstGiven xs u → t ≡ u
FirstGiven-one [] t u f g = f ∙ sym g
FirstGiven-one (x ∷ xs) t u (inl (n, f)) (inl (k, g)) = f ∙ sym g
FirstGiven-one (x ∷ xs) t u (inl (n, f)) (inr (e, g)) = absurd (n e)
FirstGiven-one (x ∷ xs) t u (inr (e, f)) (inl (k, g)) = absurd (k e)
FirstGiven-one (x ∷ xs) t u (inr (e, f)) (inr (d, g)) = FirstGiven-one xs t u f g

pub last-FirstGiven : (x : Text) → FirstGiven (x ∷ []) x
last-FirstGiven [] = inr (refl, refl)
last-FirstGiven (c ∷ x) = inl ((λ e. absurd (ground (arith, e))), refl)

pub given-true : (x : Text) → not (is_empty x) ≡ true → x ≢ []
given-true [] h e = absurd (ground (arith, h))
given-true (c ∷ x) h e = absurd (ground (arith, e))

pub true-given : (x : Text) → x ≢ [] → not (is_empty x) ≡ true
true-given [] n = absurd (n refl)
true-given (c ∷ x) n = refl
