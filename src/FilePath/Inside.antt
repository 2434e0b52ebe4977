-- ===== src/FilePath/Inside.antt =====
-- Go's path/filepath: cleaned paths and what is joined to them.
use omni_blob.Base.{
  ℕ, ◌≡◌, refl, sym, ap, ◌∙◌, ◌≢◌, inl, inr, Bool, true, false, ◌||◌, List, [], ◌∷◌, ◌++◌, reverse,
  arith, ◌==◌, Bool-cases, All, All-append, Text, text_eq, is_empty, has_prefix, has_prefix-append,
  has_prefix-common, has_prefix_self, has_byte, cons_head, split_on,
}
use mathlib.Core.List.{append-nil, append_assoc, reverse-append, reverse-cons, reverse-reverse}
use omni_blob.FilePath.{
  slash, dot, dot_dot, is_abs, join_with, go_up, push_element, resolve, finish, elements, clean,
  join,
}

-- An element that stays: it is none of "", "." and "..", and has no slash.
pub record IsPlain (e : Text) : Type 0 where
  pub given : is_empty e ≡ false
  pub not_dot : text_eq e dot ≡ false
  pub not_up : text_eq e dot_dot ≡ false
  pub whole : has_byte slash e ≡ false

cons_head-ne : (c : ℕ) (ws : List Text) → cons_head c ws ≢ []
cons_head-ne c [] e = cc
cons_head-ne c (w ∷ ws) e = cc

split_on-ne : (b : ℕ) (s : Text) → split_on b s ≢ []
unfolding split_on
split_on-ne b [] e = cc
split_on-ne b (c ∷ s) e = elim (Bool-cases (c == b)) [
  | inl same ↦ absurd (ground arith)
  | inr other ↦ cons_head-ne c (split_on b s) (ground arith)
]

cons_head-append :
    (c : ℕ) (xs ys : List Text) → xs ≢ [] → cons_head c (xs ++ ys) ≡ cons_head c xs ++ ys
cons_head-append c [] ys h = absurd (h refl)
cons_head-append c (w ∷ xs) ys h = refl

cons_head-All :
    (b c : ℕ) (ws : List Text)
    → (c == b) ≡ false
    → All (λ w. has_byte b w ≡ false) ws
    → All (λ w. has_byte b w ≡ false) (cons_head c ws)
unfolding has_byte
cons_head-All b c [] d h = (ground arith, tt)
cons_head-All b c (w ∷ ws) d h = (ground arith, h.1)

pub split_on-append :
    (b : ℕ) (s t : Text) → split_on b (s ++ (b ∷ t)) ≡ split_on b s ++ split_on b t
unfolding split_on
split_on-append b [] t = ground arith
split_on-append b (c ∷ s) t = ground (
  arith,
  split_on-append b s t,
  cons_head-append c (split_on b s) (split_on b t) (split_on-ne b s),
)

pub split_on-whole : (b : ℕ) (s : Text) → has_byte b s ≡ false → split_on b s ≡ s ∷ []
unfolding split_on has_byte
split_on-whole b [] h = refl
split_on-whole b (c ∷ s) h = ground (arith, split_on-whole b s)

split_on-All : (b : ℕ) (s : Text) → All (λ w. has_byte b w ≡ false) (split_on b s)
unfolding split_on has_byte
split_on-All b [] = (refl, tt)
split_on-All b (c ∷ s) = elim (Bool-cases (c == b)) [
  | inl same ↦ rw same (refl, split_on-All b s)
  | inr other ↦ rw other (cons_head-All b c (split_on b s) other (split_on-All b s))
]

pub resolve-append :
    (r : Bool) (st xs ys : List Text) → resolve r st (xs ++ ys) ≡ resolve r (resolve r st xs) ys
unfolding resolve
resolve-append r st [] ys = refl
resolve-append r st (x ∷ xs) ys = resolve-append r (push_element r st x) xs ys

pushed-IsPlain :
    (st : List Text) (e : Text)
    → All IsPlain st
    → has_byte slash e ≡ false
    → is_empty e ≡ false
    → text_eq e dot ≡ false
    → text_eq e dot_dot ≡ false
    → All IsPlain (e ∷ st)
pushed-IsPlain st e p h a b c = (record { given = a; not_dot = b; not_up = c; whole = h }, p)

go_up-IsPlain : (st : List Text) → All IsPlain st → All IsPlain (go_up true st)
unfolding go_up
go_up-IsPlain [] p = tt
go_up-IsPlain (t ∷ st) p = rw p.0.not_up p.1

push_element-IsPlain :
    (st : List Text) (e : Text)
    → All IsPlain st
    → has_byte slash e ≡ false
    → All IsPlain (push_element true st e)
unfolding push_element
push_element-IsPlain st e p h = elim (Bool-cases (is_empty e || text_eq e dot)) [
  | inl skipped ↦ rw skipped p
  | inr kept ↦ elim (Bool-cases (text_eq e dot_dot)) [
    | inl up ↦ rw (kept, up) (go_up-IsPlain st p)
    | inr down ↦ rw (kept, down) (pushed-IsPlain st e p h (ground arith) (ground arith) down)
  ]
]

resolve-IsPlain :
    (st es : List Text)
    → All IsPlain st
    → All (λ w. has_byte slash w ≡ false) es
    → All IsPlain (resolve true st es)
unfolding resolve
resolve-IsPlain st [] p h = p
resolve-IsPlain st (e ∷ es) p h =
    resolve-IsPlain (push_element true st e) es (push_element-IsPlain st e p h.0) h.1

push_element-pushes :
    (r : Bool) (st : List Text) (e : Text) → IsPlain e → push_element r st e ≡ e ∷ st
unfolding push_element
push_element-pushes r st e p = rw (p.given, p.not_dot, p.not_up)

pub resolve-pushes :
    (r : Bool) (st es : List Text) → All IsPlain es → resolve r st es ≡ reverse es ++ st
unfolding resolve
resolve-pushes r st [] p = refl
resolve-pushes r st (e ∷ es) p =
    rw (push_element-pushes r st e p.0, resolve-pushes r (e ∷ st) es p.1, reverse-cons e es)
      (sym (append_assoc (reverse es) (e ∷ []) st))

All-reverse {ℓ} : {A : Type 0} (P : A → Type ℓ) (xs : List A) → All P xs → All P (reverse xs)
All-reverse P [] h = tt
All-reverse P (x ∷ xs) h =
    rw (reverse-cons x xs) (All-append P (reverse xs) (x ∷ []) (All-reverse P xs h.1) (h.0, tt))

pub split_on-join_with :
    (w : Text) (ws : List Text)
    → All IsPlain (w ∷ ws)
    → split_on slash (join_with (w ∷ ws)) ≡ w ∷ ws
unfolding join_with
split_on-join_with w [] p = split_on-whole slash w p.0.whole
split_on-join_with w (v ∷ ws) p =
    rw (split_on-append slash w (join_with (v ∷ ws)), split_on-whole slash w p.0.whole)
      (ap (◌∷◌ w) (split_on-join_with v ws p.1))

resolve-joined :
    (st ws : List Text)
    → All IsPlain ws
    → resolve true st (split_on slash (slash ∷ join_with ws)) ≡ reverse ws ++ st
unfolding split_on resolve join_with
resolve-joined st [] p = refl
resolve-joined st (w ∷ ws) p = rw (split_on-join_with w ws p) (resolve-pushes true st (w ∷ ws) p)

-- A path that begins with a slash has plain elements only, so none of them is "..".
pub elements-IsPlain : (s : Text) → All IsPlain (elements (slash ∷ s))
unfolding elements
elements-IsPlain s =
    All-reverse IsPlain (resolve true [] (split_on slash (slash ∷ s)))
      (resolve-IsPlain [] (split_on slash (slash ∷ s)) tt (split_on-All slash (slash ∷ s)))

elements-joined :
    (b : Text) (ws : List Text)
    → All IsPlain ws
    → elements ((slash ∷ b) ++ (slash ∷ (slash ∷ join_with ws))) ≡ elements (slash ∷ b) ++ ws
unfolding elements
elements-joined b ws p = rw (
  split_on-append slash (slash ∷ b) (slash ∷ join_with ws),
  resolve-append true [] (split_on slash (slash ∷ b)) (split_on slash (slash ∷ join_with ws)),
  resolve-joined (resolve true [] (split_on slash (slash ∷ b))) ws p,
  reverse-append (reverse ws) (resolve true [] (split_on slash (slash ∷ b))),
  reverse-reverse ws,
)

-- Joining a cleaned rooted path to an absolute directory gives the elements of the directory
-- followed by those of the path.
pub join-clean :
    (b s : Text)
    → join ((slash ∷ b) ∷ clean (slash ∷ s) ∷ [])
      ≡ finish true (elements (slash ∷ b) ++ elements (slash ∷ s))
unfolding join join_with
join-clean b s = ap (finish true) (elements-joined b (elements (slash ∷ s)) (elements-IsPlain s))

pub join_with-append : (xs ys : List Text) → has_prefix (join_with (xs ++ ys)) (join_with xs) ≡ true
unfolding join_with has_prefix
join_with-append [] ys = ground arith
join_with-append (x ∷ []) [] = has_prefix_self x
join_with-append (x ∷ []) (y ∷ ys) = has_prefix-append x _
join_with-append (x ∷ v ∷ xs) ys =
    rw (has_prefix-common x (slash ∷ join_with (v ∷ (xs ++ ys))) (slash ∷ join_with (v ∷ xs)))
      (ground (arith, join_with-append (v ∷ xs) ys))

-- Clean does nothing to a rooted path of plain elements.
pub clean-finish : (ws : List Text) → All IsPlain ws → clean (finish true ws) ≡ finish true ws
unfolding clean elements finish
clean-finish ws p =
    ap (λ es. slash ∷ join_with es)
      (ap reverse (resolve-joined [] ws p ∙ append-nil (reverse ws)) ∙ reverse-reverse ws)

pub finish-prefix :
    (xs ys : List Text) → has_prefix (finish true (xs ++ ys)) (finish true xs) ≡ true
unfolding finish has_prefix
finish-prefix xs ys = join_with-append xs ys

pub clean_rooted : (b : Text) → clean (slash ∷ b) ≡ finish true (elements (slash ∷ b))
unfolding clean is_abs
clean_rooted b = refl

-- What is joined to a rooted path is clean.
pub clean-join : (b t : Text) → clean (join ((slash ∷ b) ∷ t ∷ [])) ≡ join ((slash ∷ b) ∷ t ∷ [])
unfolding join join_with
clean-join b t =
    let path = b ++ (slash ∷ t) in
    ap clean (clean_rooted path)
    ∙ clean-finish (elements (slash ∷ path)) (elements-IsPlain path)
    ∙ sym (clean_rooted path)
