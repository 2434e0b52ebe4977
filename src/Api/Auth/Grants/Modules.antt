-- ===== src/Api/Auth/Grants/Modules.antt =====
-- internal/api/auth.go: the white list of a client, and the module that is checked.
use omni_blob.Base.{
  ◌≡◌, refl, sym, ap, ◌∙◌, ◌≢◌, ◌↔◌, ◌⊎◌, inl, inr, true, ◌||◌, List, [], ◌∷◌, ◌++◌, arith,
  if◌then◌else◌, Bool-cases, any_of, Any, Text, codes, text_eq, text_eq_iff, is_empty, or_else,
  trim_space, contains_text,
}
use omni_blob.Http.{Request, form_value, query_value}
use omni_blob.Api.Auth.{ClientInfo, ip_listed, module_allowed, bucket_allowed, requested_bucket}
use omni_blob.Api.Auth.Grants.{
  FirstGiven, ChecksModule, or_else-FirstGiven, FirstGiven-one, last-FirstGiven, true-given,
}

named_iff : (xs : List Text) (t : Text) → (contains_text xs t ≡ true) ↔ Any (λ x. x ≡ t) xs
named_iff [] t = (λ e. absurd (ground (arith, e)), λ h. absurd h)
named_iff (x ∷ xs) t =
    let (there, back) = named_iff xs t in
    let (eq, qe) = text_eq_iff t x in
    elim (Bool-cases (text_eq t x)) [
      | inl y ↦ rw y (λ e. inl (sym (eq y)), λ h. refl)
      | inr n ↦ rw n (
        λ e. inr (there e),
        λ h. elim h [ inl e ↦ absurd (ground (arith, n, qe (sym e))) | inr k ↦ back k ],
      )
    ]

pub listed_iff :
    (c : ClientInfo) (ip : Text)
    → (ip_listed c ip ≡ true) ↔ ((c.whitelist_ips ≡ []) ⊎ Any (λ x. x ≡ ip) c.whitelist_ips)
unfolding ip_listed
listed_iff c ip = go c.whitelist_ips
  where
    go :
        (xs : List Text)
        → ((if any_of (λ x. true) xs then contains_text xs ip else true) ≡ true)
          ↔ ((xs ≡ []) ⊎ Any (λ x. x ≡ ip) xs)
    go [] = (λ e. inl refl, λ h. refl)
    go (x ∷ xs) =
        let (there, back) = named_iff (x ∷ xs) ip in
        (λ e. inr (there e), λ h. elim h [ inl e ↦ absurd (ground (arith, e)) | inr k ↦ back k ])

modules_iff :
    (ms : List Text) (b : Text)
    → (module_allowed ms b ≡ true) ↔ Any (λ x. (x ≡ codes "*") ⊎ (x ≡ b)) ms
unfolding module_allowed
modules_iff [] b = (λ e. absurd (ground (arith, e)), λ h. absurd h)
modules_iff (x ∷ ms) b =
    let (there, back) = modules_iff ms b in
    let star = text_eq_iff x (codes "*") in
    let same = text_eq_iff x b in
    elim (Bool-cases (text_eq x (codes "*"))) [
      | inl y ↦ rw y (λ e. inl (inl (star.0 y)), λ h. refl)
      | inr n ↦ elim (Bool-cases (text_eq x b)) [
        | inl y ↦ rw (n, y) (λ e. inl (inr (same.0 y)), λ h. refl)
        | inr k ↦
            rw (n, k)
              (
                λ e. inr (there e),
                λ h. elim h [
                  | inl (inl e) ↦ absurd (ground (arith, n, star.1 e))
                  | inl (inr e) ↦ absurd (ground (arith, k, same.1 e))
                  | inr l ↦ back l
                ],
              )
      ]
    ]

requested-ChecksModule : (r : Request) → ChecksModule r (requested_bucket r)
unfolding requested_bucket
requested-ChecksModule r =
    let a = trim_space (form_value r "module") in
    let b = trim_space (form_value r "modul") in
    let c = trim_space (query_value r "module") in
    let first : FirstGiven (a ∷ b ∷ c ∷ codes "general" ∷ [])
        (or_else a (or_else b (or_else c (codes "general")))) =
      or_else-FirstGiven a (or_else b (or_else c (codes "general"))) (b ∷ c ∷ codes "general" ∷ [])
        (or_else-FirstGiven b (or_else c (codes "general")) (c ∷ codes "general" ∷ []) (
          or_else-FirstGiven c (codes "general") (codes "general" ∷ [])
            (last-FirstGiven (codes "general")))) in
    pick r.bucket (or_else a (or_else b (or_else c (codes "general"))))
      (a ∷ b ∷ c ∷ codes "general" ∷ []) first
  where
    pick :
        (bucket d : Text) (xs : List Text)
        → FirstGiven xs d
        → ((bucket ≢ [])
            × (bucket ≢ codes "files")
            × ((if is_empty bucket || text_eq bucket (codes "files") then d else bucket) ≡ bucket))
          ⊎ (((bucket ≡ []) ⊎ (bucket ≡ codes "files"))
              × FirstGiven xs
                  (if is_empty bucket || text_eq bucket (codes "files") then d else bucket))
    pick [] d xs f = inr (inl refl, f)
    pick (x ∷ t) d xs f = elim (Bool-cases (text_eq (x ∷ t) (codes "files"))) [
      | inl y ↦ rw y (inr (inr ((text_eq_iff (x ∷ t) (codes "files")).0 y), f))
      | inr n ↦ rw n (
          inl (
            λ e. absurd (ground (arith, e)),
            λ e. absurd (ground (arith, n, (text_eq_iff (x ∷ t) (codes "files")).1 e)),
            refl,
          ))
    ]

FirstGiven-given : (xs : List Text) (l t : Text) → l ≢ [] → FirstGiven (xs ++ (l ∷ [])) t → t ≢ []
FirstGiven-given [] l t n (inl (k, e)) z = n (sym e ∙ z)
FirstGiven-given [] l t n (inr (e, f)) z = n e
FirstGiven-given (x ∷ xs) l t n (inl (k, e)) z = k (sym e ∙ z)
FirstGiven-given (x ∷ xs) l t n (inr (e, f)) z = FirstGiven-given xs l t n f z

ChecksModule-one : (r : Request) (b c : Text) → ChecksModule r b → ChecksModule r c → b ≡ c
ChecksModule-one r b c (inl (n, k, e)) (inl (m, l, f)) = e ∙ sym f
ChecksModule-one r b c (inl (n, k, e)) (inr (inl f, h)) = absurd (n f)
ChecksModule-one r b c (inl (n, k, e)) (inr (inr f, h)) = absurd (k f)
ChecksModule-one r b c (inr (inl f, h)) (inl (n, k, e)) = absurd (n f)
ChecksModule-one r b c (inr (inr f, h)) (inl (n, k, e)) = absurd (k f)
ChecksModule-one r b c (inr (f, h)) (inr (g, k)) =
    FirstGiven-one
      (trim_space (form_value r "module")
        ∷ trim_space (form_value r "modul")
        ∷ trim_space (query_value r "module")
        ∷ codes "general"
        ∷ [])
      b c h k

ChecksModule-given : (r : Request) (b : Text) → ChecksModule r b → b ≢ []
ChecksModule-given r b (inl (n, k, e)) z = n (sym e ∙ z)
ChecksModule-given r b (inr (f, h)) z =
    FirstGiven-given
      (trim_space (form_value r "module")
        ∷ trim_space (form_value r "modul")
        ∷ trim_space (query_value r "module")
        ∷ [])
      (codes "general") b (λ e. absurd (ground (arith, e))) h z

bucket_iff :
    (c : ClientInfo) (b : Text)
    → b ≢ []
    → (bucket_allowed c b ≡ true)
      ↔ ((b ≡ codes "files") ⊎ Any (λ x. (x ≡ codes "*") ⊎ (x ≡ b)) c.allowed_modules)
unfolding bucket_allowed
bucket_iff c b n =
    let (there, back) = modules_iff c.allowed_modules b in
    let files = text_eq_iff b (codes "files") in
    elim (Bool-cases (text_eq b (codes "files"))) [
      | inl y ↦ (λ e. inl (files.0 y), λ h. ground (arith, y))
      | inr k ↦
          rw (true-given b n, k)
            (
              λ e. inr (there e),
              λ h. elim h [ inl e ↦ absurd (ground (arith, k, files.1 e)) | inr a ↦ back a ],
            )
    ]

pub allowed_iff :
    (c : ClientInfo) (r : Request)
    → (bucket_allowed c (requested_bucket r) ≡ true) ↔ (
        (b : Text) × ChecksModule r b
        × ((b ≡ codes "files") ⊎ Any (λ x. (x ≡ codes "*") ⊎ (x ≡ b)) c.allowed_modules))
allowed_iff c r =
    let mine = requested-ChecksModule r in
    let given = ChecksModule-given r (requested_bucket r) mine in
    (
      λ e. (requested_bucket r, mine, (bucket_iff c (requested_bucket r) given).0 e),
      λ (b, k, h).
          let same = ChecksModule-one r (requested_bucket r) b mine k in
          ap (bucket_allowed c) same ∙ (bucket_iff c b (ChecksModule-given r b k)).1 h,
    )
