-- ===== src/Api/Auth/Combos.antt =====
-- internal/api/auth.go: the table of credentials.
use omni_blob.Base.{
  Any, ◌≡◌, refl, ◌∙◌, ◌⊎◌, inl, inr, Bool, true, false, none, some, List, [], ◌∷◌, ◌++◌, arith,
  if◌then◌else◌, Bool-cases, Option-cases, Text, text_eq, text_eq_iff, text_eq_refl, has_byte,
  lookup, lookup-insert,
}
use omni_blob.Config.{ClientConfig, ServerConfig}
use mathlib.Core.List.{append_assoc}
use omni_blob.Api.Auth.{
  ClientInfo, Combos, combo_key, add_combo, add_client, add_clients, add_global, combo_to_client,
  client_info, default_client, is_complete,
}

-- The first piece before a colon, and the rest, determine the text.
colon_split :
    (a b x y : Text)
    → has_byte b':' a ≡ false
    → has_byte b':' b ≡ false
    → a ++ (b':' ∷ x) ≡ b ++ (b':' ∷ y)
    → (a ≡ b) × (x ≡ y)
unfolding has_byte
colon_split [] [] x y ha hb e = (refl, cc)
colon_split [] (c ∷ b) x y ha hb e = absurd (ground arith)
colon_split (c ∷ a) [] x y ha hb e = absurd (ground arith)
colon_split (c ∷ a) (d ∷ b) x y ha hb e =
    let (ea, ex) = colon_split a b x y (ground arith) (ground arith) (ground arith) in
    (ground arith, ex)

-- Where keys and users have no colon, a combination stands for one key, user and password.
pub combo_key-injective :
    (key user pass key' user' pass' : Text)
    → has_byte b':' key ≡ false
    → has_byte b':' key' ≡ false
    → has_byte b':' user ≡ false
    → has_byte b':' user' ≡ false
    → combo_key key user pass ≡ combo_key key' user' pass'
    → (key ≡ key') × (user ≡ user') × (pass ≡ pass')
combo_key-injective key user pass key' user' pass' hk hk' hu hu' e =
    let (ek, er) = colon_split key key' _ _ hk hk' e in
    let (eu, ep) = colon_split user user' _ _ hu hu' er in (ek, eu, ep)

-- With a colon it does not: a part of the user may be moved into the key.
pub combo_key-ambiguous :
    (key part user pass : Text)
    → combo_key key (part ++ (b':' ∷ user)) pass ≡ combo_key (key ++ (b':' ∷ part)) user pass
combo_key-ambiguous key part user pass = simp append_assoc

add_combo-lookup :
    (key j : Text) (c : ClientInfo) (m m' : Combos)
    → add_combo key c m ≡ some m'
    → (lookup key m ≡ none) × (lookup j m' ≡ (if text_eq key j then some c else lookup j m))
unfolding add_combo
add_combo-lookup key j c m m' e = elim (Option-cases (lookup key m)) [
  | inl n ↦ (n, ground (arith, lookup-insert key j c m))
  | inr (d, n) ↦ absurd (ground arith)
]

-- `m'` has what `m` has.
abbrev Extends : Combos → Combos → Type 0
Extends m m' = (j : Text) (d : ClientInfo) → lookup j m ≡ some d → lookup j m' ≡ some d

add_combo-Extends :
    (key : Text) (c : ClientInfo) (m m' : Combos) → add_combo key c m ≡ some m' → Extends m m'
add_combo-Extends key c m m' e j d h =
    let (n, l) = add_combo-lookup key j c m m' e in ground (arith, text_eq_iff key j)

abbrev pub usable : ClientConfig → Bool
usable c = is_complete c.api_key c.user c.password

abbrev pub combo_of : ClientConfig → Text
combo_of c = combo_key c.api_key c.user c.password

add_client-cases :
    (c : ClientConfig) (m m' : Combos)
    → add_client c m ≡ some m'
    → ((usable c ≡ false) × (m' ≡ m)) ⊎ (add_combo (combo_of c) (client_info c) m ≡ some m')
unfolding add_client
add_client-cases c m m' e = ground arith

add_client-Extends : (c : ClientConfig) (m m' : Combos) → add_client c m ≡ some m' → Extends m m'
add_client-Extends c m m' e j d h = elim (add_client-cases c m m' e) [
  | inl (u, s) ↦ rw s h
  | inr k ↦ add_combo-Extends (combo_of c) (client_info c) m m' k j d h
]

add_clients-Extends :
    (cs : List ClientConfig) (m m' : Combos) → add_clients cs m ≡ some m' → Extends m m'
unfolding add_clients
add_clients-Extends [] m m' e j d h = ground arith
add_clients-Extends (c ∷ cs) m m' e j d h = elim (Option-cases (add_client c m)) [
  | inl n ↦ absurd (ground arith)
  | inr (m1, n) ↦
      add_clients-Extends cs m1 m' (ground arith) j d (add_client-Extends c m m1 n j d h)
]

abbrev Lists : ClientConfig → Combos → Type 0
Lists c m = lookup (combo_of c) m ≡ some (client_info c)

add_client-Lists :
    (c : ClientConfig) (m m' : Combos) → usable c ≡ true → add_client c m ≡ some m' → Lists c m'
add_client-Lists c m m' u e = elim (add_client-cases c m m' e) [
  | inl (v, s) ↦ cc
  | inr k ↦
      (add_combo-lookup (combo_of c) (combo_of c) (client_info c) m m' k).1
      ∙ rw (text_eq_refl (combo_of c))
]

add_clients-Lists :
    (cs : List ClientConfig) (m m' : Combos) (c : ClientConfig)
    → add_clients cs m ≡ some m'
    → usable c ≡ true
    → Any (λ x. x ≡ c) cs
    → Lists c m'
unfolding add_clients
add_clients-Lists [] m m' c e u h = absurd h
add_clients-Lists (x ∷ cs) m m' c e u h = elim (Option-cases (add_client x m)) [
  | inl n ↦ absurd (ground arith)
  | inr (m1, n) ↦
      let rest : add_clients cs m1 ≡ some m' = ground arith in
      elim h [
        | inl here ↦
            add_clients-Extends cs m1 m' rest (combo_of c) (client_info c)
              (add_client-Lists c m m1 u (rw here at n))
        | inr there ↦ add_clients-Lists cs m1 m' c rest u there
      ]
]

-- An entry of the table that is not in `m` comes from a complete client of the list.
abbrev pub ComesFrom : Text → ClientInfo → ClientConfig → Type 0
ComesFrom j d c = (usable c ≡ true) × (combo_of c ≡ j) × (client_info c ≡ d)

add_client-from :
    (c : ClientConfig) (m m' : Combos) (j : Text) (d : ClientInfo)
    → add_client c m ≡ some m'
    → lookup j m' ≡ some d
    → (lookup j m ≡ some d) ⊎ ComesFrom j d c
unfolding add_client
add_client-from c m m' j d e h = elim (Bool-cases (usable c)) [
  | inl u ↦
      let l = (add_combo-lookup (combo_of c) j (client_info c) m m' (ground arith)).1 in
      elim (Bool-cases (text_eq (combo_of c) j)) [
        | inl same ↦ inr (u, (text_eq_iff (combo_of c) j).0 same, ground arith)
        | inr other ↦ inl (ground arith)
      ]
  | inr v ↦ inl (ground arith)
]

add_clients-from :
    (cs : List ClientConfig) (m m' : Combos) (j : Text) (d : ClientInfo)
    → add_clients cs m ≡ some m'
    → lookup j m' ≡ some d
    → (lookup j m ≡ some d) ⊎ Any (ComesFrom j d) cs
unfolding add_clients
add_clients-from [] m m' j d e h = inl (ground arith)
add_clients-from (c ∷ cs) m m' j d e h = elim (Option-cases (add_client c m)) [
  | inl n ↦ absurd (ground arith)
  | inr (m1, n) ↦ elim (add_clients-from cs m1 m' j d (ground arith) h) [
    | inl old ↦ elim (add_client-from c m m1 j d n old) [
      | inl older ↦ inl older
      | inr here ↦ inr (inl here)
    ]
    | inr there ↦ inr (inr there)
  ]
]

abbrev pub global_usable : ServerConfig → Bool
global_usable cfg = is_complete cfg.api_key cfg.api_user cfg.api_pass

-- The default client of the configuration.
abbrev pub IsDefault : ServerConfig → Text → ClientInfo → Type 0
IsDefault cfg j d =
    (global_usable cfg ≡ true)
    × (combo_key cfg.api_key cfg.api_user cfg.api_pass ≡ j)
    × (default_client cfg ≡ d)

add_global-cases :
    (cfg : ServerConfig) (m m' : Combos)
    → add_global cfg m ≡ some m'
    → ((global_usable cfg ≡ false) × (m' ≡ m))
      ⊎ ((global_usable cfg ≡ true)
          × (add_combo (combo_key cfg.api_key cfg.api_user cfg.api_pass) (default_client cfg) m
              ≡ some m'))
unfolding add_global
add_global-cases cfg m m' e = ground arith

add_global-Extends :
    (cfg : ServerConfig) (m m' : Combos) → add_global cfg m ≡ some m' → Extends m m'
add_global-Extends cfg m m' e j d h = elim (add_global-cases cfg m m' e) [
  | inl (v, s) ↦ rw s h
  | inr (u, k) ↦ add_combo-Extends _ (default_client cfg) m m' k j d h
]

add_global-from :
    (cfg : ServerConfig) (m m' : Combos) (j : Text) (d : ClientInfo)
    → add_global cfg m ≡ some m'
    → lookup j m' ≡ some d
    → (lookup j m ≡ some d) ⊎ IsDefault cfg j d
add_global-from cfg m m' j d e h = elim (add_global-cases cfg m m' e) [
  | inl (v, s) ↦ inl (rw s at h)
  | inr (u, k) ↦
      let key : Text = combo_key cfg.api_key cfg.api_user cfg.api_pass in
      let l = (add_combo-lookup key j (default_client cfg) m m' k).1 in
      elim (Bool-cases (text_eq key j)) [
        | inl same ↦ inr (u, (text_eq_iff key j).0 same, ground arith)
        | inr other ↦ inl (ground arith)
      ]
]

-- If the program starts, the table holds every complete configured client under its combination,
-- and each of its entries is such a client or the global default.
pub combo_to_client-table :
    (cfg : ServerConfig) (m : Combos)
    → combo_to_client cfg ≡ some m
    → ((c : ClientConfig)
        → usable c ≡ true
        → Any (λ x. x ≡ c) cfg.clients
        → lookup (combo_of c) m ≡ some (client_info c))
      × ((j : Text) (d : ClientInfo)
          → lookup j m ≡ some d
          → Any (ComesFrom j d) cfg.clients ⊎ IsDefault cfg j d)
unfolding combo_to_client lookup
combo_to_client-table cfg m e = elim (Option-cases (add_clients cfg.clients [])) [
  | inl n ↦ absurd (ground arith)
  | inr (m1, n) ↦
      let g : add_global cfg m1 ≡ some m = ground arith in
      (
        λ c u h.
            add_global-Extends cfg m1 m g (combo_of c) (client_info c)
              (add_clients-Lists cfg.clients [] m1 c n u h),
        λ j d h. elim (add_global-from cfg m1 m j d g h) [
          | inl old ↦ elim (add_clients-from cfg.clients [] m1 j d n old) [
            | inl nothing ↦ absurd (ground arith)
            | inr from ↦ inl from
          ]
          | inr default ↦ inr default
        ],
      )
]
