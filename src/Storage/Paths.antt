-- ===== src/Storage/Paths.antt =====
-- internal/storage/storage.go: the paths of objects and of temporary files.
use omni_blob.Base.{
  ℕ, ◌≡◌, refl, sym, ap, ◌∙◌, ◌≢◌, inl, inr, true, false, List, [], ◌∷◌, ◌++◌, reverse, arith,
  Bool-cases, length, All, Text, codes, text_eq, text_eq_iff, is_empty, has_byte, has_byte-append,
  split_on, decimal, decimal-digits,
}
use mathlib.Core.List.{append-nil, append_assoc, reverse-append, reverse-reverse}
use omni_blob.FilePath.{
  slash, dot, dot_dot, is_abs, join_with, resolve, finish, elements, clean, join,
}
use omni_blob.FilePath.Inside.{
  IsPlain, split_on-append, split_on-join_with, resolve-append, resolve-pushes,
}
use omni_blob.Storage.{StorageService, object_path, object_rel, temp_path, temp_name}

-- The directories of a path, each with its slash.
abbrev pub dirs_text : List Text → Text
dirs_text [] = []
dirs_text (x ∷ xs) = x ++ (slash ∷ dirs_text xs)

join_with-dirs :
    (xs : List Text) (y : Text) (ys : List Text)
    → join_with (xs ++ (y ∷ ys)) ≡ dirs_text xs ++ join_with (y ∷ ys)
unfolding join_with
join_with-dirs [] y ys = refl
join_with-dirs (x ∷ []) y ys = sym (append_assoc x _ _)
join_with-dirs (x ∷ v ∷ xs) y ys =
    ap (λ t. x ++ (slash ∷ t)) (join_with-dirs (v ∷ xs) y ys) ∙ sym (append_assoc x _ _)

is_abs-plain : (w : Text) (t : Text) → IsPlain w → is_abs (w ++ t) ≡ false
unfolding is_abs has_byte
is_abs-plain [] t p = absurd (ground (arith, p.given))
is_abs-plain (c ∷ w) t p = ground (arith, p.whole)

is_abs-join_with : (w : Text) (ws : List Text) → IsPlain w → is_abs (join_with (w ∷ ws)) ≡ false
unfolding join_with
is_abs-join_with w [] p = rw (append-nil w) at (is_abs-plain w [] p)
is_abs-join_with w (v ∷ ws) p = is_abs-plain w (slash ∷ join_with (v ∷ ws)) p

elements-rel :
    (w : Text) (ws : List Text) → All IsPlain (w ∷ ws) → elements (join_with (w ∷ ws)) ≡ w ∷ ws
unfolding elements
elements-rel w ws p = rw (
  is_abs-join_with w ws p.0,
  split_on-join_with w ws p,
  resolve-pushes false [] (w ∷ ws) p,
  append-nil (reverse (w ∷ ws)),
  reverse-reverse (w ∷ ws),
)

clean_lem : (t : Text) → is_empty t ≡ false → clean t ≡ finish (is_abs t) (elements t)
unfolding clean
clean_lem [] h = cc
clean_lem (c ∷ t) h = refl

join_lem :
    (p : Text) (ps : List Text) → is_empty p ≡ false → join (p ∷ ps) ≡ clean (join_with (p ∷ ps))
unfolding join
join_lem [] ps h = cc
join_lem (c ∷ p) ps h = refl

join_with-given :
    (w : Text) (ws : List Text) → is_empty w ≡ false → is_empty (join_with (w ∷ ws)) ≡ false
unfolding join_with
join_with-given [] ws h = cc
join_with-given (c ∷ w) [] h = refl
join_with-given (c ∷ w) (v ∷ ws) h = refl

finish-rel : (w : Text) (ws : List Text) → finish false (w ∷ ws) ≡ join_with (w ∷ ws)
unfolding finish
finish-rel w ws = refl

-- Plain elements are joined as they are.
pub join-rel :
    (w : Text) (ws : List Text) → All IsPlain (w ∷ ws) → join (w ∷ ws) ≡ join_with (w ∷ ws)
join-rel w ws p =
    rw
      (
        join_lem w ws p.0.given,
        clean_lem (join_with (w ∷ ws)) (join_with-given w ws p.0.given),
        is_abs-join_with w ws p.0,
        elements-rel w ws p,
      )
      (finish-rel w ws)

elements-root :
    (b w : Text) (ws : List Text)
    → All IsPlain (w ∷ ws)
    → elements ((slash ∷ b) ++ (slash ∷ join_with (w ∷ ws))) ≡ elements (slash ∷ b) ++ (w ∷ ws)
unfolding elements
elements-root b w ws p = rw (
  split_on-append slash (slash ∷ b) (join_with (w ∷ ws)),
  resolve-append true [] (split_on slash (slash ∷ b)) (split_on slash (join_with (w ∷ ws))),
  split_on-join_with w ws p,
  resolve-pushes true (resolve true [] (split_on slash (slash ∷ b))) (w ∷ ws) p,
  reverse-append (reverse (w ∷ ws)) (resolve true [] (split_on slash (slash ∷ b))),
  reverse-reverse (w ∷ ws),
)

join-root :
    (b w : Text) (ws : List Text)
    → All IsPlain (w ∷ ws)
    → join ((slash ∷ b) ∷ join_with (w ∷ ws) ∷ [])
      ≡ slash ∷ (dirs_text (elements (slash ∷ b)) ++ join_with (w ∷ ws))
unfolding join clean join_with finish
join-root b w ws p =
    rw (elements-root b w ws p) (ap (◌∷◌ slash) (join_with-dirs (elements (slash ∷ b)) w ws))

-- The path of `t` in the directory objects below the root.
abbrev pub below : StorageService → Text → Text
below s t = slash ∷ (dirs_text (elements s.root_path) ++ (codes "objects/" ++ t))

-- A hash in hexadecimal digits is an element of a path.
text_eq-length : (a b : Text) → length a ≢ length b → text_eq a b ≡ false
text_eq-length a b h = elim (Bool-cases (text_eq a b)) [
  | inl e ↦ absurd (h (ap length ((text_eq_iff a b).0 e)))
  | inr e ↦ e
]

pub given_of_length : (h : Text) → length h ≡ 64 → is_empty h ≡ false
given_of_length [] l = absurd (omega arith)
given_of_length (c ∷ h) l = refl

IsPlain-of_length : (h : Text) → length h ≡ 64 → has_byte slash h ≡ false → IsPlain h
IsPlain-of_length h l w = record {
  given = given_of_length h l;
  not_dot = text_eq-length h dot (omega arith);
  not_up = text_eq-length h dot_dot (omega arith);
  whole = w;
}

objects-IsPlain : IsPlain (codes "objects")
unfolding text_eq has_byte
objects-IsPlain = record { given = refl; not_dot = refl; not_up = refl; whole = refl }

temp-IsPlain : IsPlain (codes "temp")
unfolding text_eq has_byte
temp-IsPlain = record { given = refl; not_dot = refl; not_up = refl; whole = refl }

temp_name-IsPlain : (nano : ℕ) → IsPlain (temp_name nano)
unfolding text_eq has_byte
temp_name-IsPlain nano = record {
  given = refl;
  not_dot = refl;
  not_up = refl;
  whole =
      has_byte-append slash (codes "temp_") (decimal nano)
      ∙ decimal-digits slash nano (omega arith);
}

objects_under :
    (w : Text) (ws : List Text)
    → join_with (codes "objects" ∷ w ∷ ws) ≡ codes "objects/" ++ join_with (w ∷ ws)
unfolding join_with
objects_under w ws = refl

join_with-one : (w : Text) → join_with (w ∷ []) ≡ w
unfolding join_with
join_with-one w = refl

join_with-two : (v w : Text) → join_with (v ∷ w ∷ []) ≡ v ++ (slash ∷ w)
unfolding join_with
join_with-two v w = refl

pub object_rel-text :
    (h : Text) → length h ≡ 64 → has_byte slash h ≡ false → object_rel h ≡ codes "objects/" ++ h
object_rel-text h l w =
    rw (join-rel (codes "objects") (h ∷ []) (objects-IsPlain, (IsPlain-of_length h l w, tt)))
      (rw (objects_under h [], join_with-one h))

-- Where the root directory is absolute, objects and temporary files lie below its `objects`.
module _ (s : StorageService) (b : Text) (root : s.root_path ≡ slash ∷ b) where
  pub object_path-below :
      (h : Text) → length h ≡ 64 → has_byte slash h ≡ false → object_path s h ≡ below s h
  object_path-below h l w =
      let p : All IsPlain (codes "objects" ∷ h ∷ []) =
        (objects-IsPlain, (IsPlain-of_length h l w, tt)) in
      rw (root, join-rel (codes "objects") (h ∷ []) p, join-root b (codes "objects") (h ∷ []) p)
        (rw (objects_under h [], join_with-one h))

  pub temp_path-below :
      (nano : ℕ) → temp_path s nano ≡ below s (codes "temp" ++ (slash ∷ temp_name nano))
  temp_path-below nano =
      let p : All IsPlain (codes "objects" ∷ codes "temp" ∷ temp_name nano ∷ []) =
        (objects-IsPlain, (temp-IsPlain, (temp_name-IsPlain nano, tt))) in
      rw
        (
          root,
          join-rel (codes "objects") (codes "temp" ∷ temp_name nano ∷ []) p,
          join-root b (codes "objects") (codes "temp" ∷ temp_name nano ∷ []) p,
        )
        (rw (
          objects_under (codes "temp") (temp_name nano ∷ []),
          join_with-two (codes "temp") (temp_name nano),
        ))
