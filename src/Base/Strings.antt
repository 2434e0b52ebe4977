-- ===== src/Base/Strings.antt =====
-- Go strings as lists of bytes, with the functions of Go's package strings that the program calls.
-- Case and white space are those of ASCII.
use Prim.Native.Nat.{ℕ, zero, suc, ◌<◌, ◌+◌, ◌/◌, ◌%◌}
use Prim.Native.Char.{code}
use Prim.Native.String.{String}
use mathlib.Core.Path.{◌≡◌, refl}
use mathlib.Core.Logic.{◌↔◌}
use mathlib.Core.Bool.{Bool, true, false, ◌&&◌, ◌||◌}
use mathlib.Core.Option.{Option, none, some}
use mathlib.Core.List.{List, [], ◌∷◌, ◌++◌, map, reverse}
use native.Mathlib.Omega.{arith}
use omni_blob.Base.Tests.{leb, ltb, ◌==◌, if◌then◌else◌}

abbrev pub Text : Type 0
Text = List ℕ

abbrev pub codes : String → Text
codes String.[] = []
codes (String.◌∷◌ c s) = code c ∷ codes s

unfoldable pub text_eq : Text → Text → Bool
text_eq [] [] = true
text_eq [] (y ∷ ys) = false
text_eq (x ∷ xs) [] = false
text_eq (x ∷ xs) (y ∷ ys) = (x == y) && text_eq xs ys

pub text_eq_iff : (a b : Text) → (text_eq a b ≡ true) ↔ (a ≡ b)
unfolding text_eq
text_eq_iff [] [] = ground arith
text_eq_iff [] (y ∷ ys) = ground arith
text_eq_iff (x ∷ xs) [] = ground arith
text_eq_iff (x ∷ xs) (y ∷ ys) = ground (arith, text_eq_iff xs ys)

pub text_eq_refl : (a : Text) → text_eq a a ≡ true
text_eq_refl a = (text_eq_iff a a).1 refl

pub text_eq-common : (x a b : Text) → text_eq (x ++ a) (x ++ b) ≡ text_eq a b
unfolding text_eq
text_eq-common [] a b = refl
text_eq-common (c ∷ x) a b = ground (arith, text_eq-common x a b)

abbrev pub is_empty : Text → Bool
is_empty [] = true
is_empty (x ∷ xs) = false

-- `if s == "" { s = d }`
abbrev pub or_else : Text → Text → Text
or_else [] d = d
or_else (x ∷ xs) d = x ∷ xs

-- strings.HasPrefix(s, p)
unfoldable pub has_prefix : Text → Text → Bool
has_prefix s [] = true
has_prefix [] (p ∷ ps) = false
has_prefix (c ∷ s) (p ∷ ps) = (c == p) && has_prefix s ps

pub has_prefix-append : (p s : Text) → has_prefix (p ++ s) p ≡ true
unfolding has_prefix
has_prefix-append [] s = refl
has_prefix-append (c ∷ p) s = ground (arith, has_prefix-append p s)

pub has_prefix-common : (x s p : Text) → has_prefix (x ++ s) (x ++ p) ≡ has_prefix s p
unfolding has_prefix
has_prefix-common [] s p = refl
has_prefix-common (c ∷ x) s p = ground (arith, has_prefix-common x s p)

pub has_prefix_self : (s : Text) → has_prefix s s ≡ true
unfolding has_prefix
has_prefix_self [] = refl
has_prefix_self (c ∷ s) = ground (arith, has_prefix_self s)

pub has_prefix-map :
    (f : ℕ → ℕ) (s p : Text) → has_prefix s p ≡ true → has_prefix (map f s) (map f p) ≡ true
unfolding has_prefix
has_prefix-map f [] [] h = refl
has_prefix-map f (c ∷ s) [] h = refl
has_prefix-map f [] (d ∷ p) h = cc
has_prefix-map f (c ∷ s) (d ∷ p) h = ground (arith, has_prefix-map f s p)

-- strings.TrimPrefix(s, p)
unfoldable pub trim_prefix : Text → Text → Text
unfolding has_prefix
trim_prefix s [] = s
trim_prefix [] (p ∷ ps) = []
trim_prefix (c ∷ s) (p ∷ ps) =
    let rest = trim_prefix s ps in if has_prefix (c ∷ s) (p ∷ ps) then rest else c ∷ s

-- strings.Contains(s, c) for one byte.
unfoldable pub has_byte : ℕ → Text → Bool
has_byte b [] = false
has_byte b (c ∷ s) = (c == b) || has_byte b s

-- strings.Contains(s, t)
unfoldable pub contains : Text → Text → Bool
unfolding has_prefix
contains [] t = is_empty t
contains (c ∷ s) t = has_prefix (c ∷ s) t || contains s t

pub has_byte-append : (b : ℕ) (s t : Text) → has_byte b (s ++ t) ≡ (has_byte b s || has_byte b t)
unfolding has_byte
has_byte-append b [] t = refl
has_byte-append b (c ∷ s) t = ground (arith, has_byte-append b s t)

unfoldable pub drop_while : (ℕ → Bool) → Text → Text
drop_while p [] = []
drop_while p (c ∷ s) = let rest = drop_while p s in if p c then rest else c ∷ s

-- strings.TrimFunc and strings.Trim with one byte.
unfoldable pub trim_if : (ℕ → Bool) → Text → Text
unfolding drop_while
trim_if p s = reverse (drop_while p (reverse (drop_while p s)))

abbrev pub is_space : ℕ → Bool
is_space c = (c == 32) || (leb 9 c && leb c 13)

unfoldable pub trim_space : Text → Text
unfolding trim_if
trim_space s = trim_if is_space s

abbrev pub lower_byte : ℕ → ℕ
lower_byte c = if leb b'A' c && leb c b'Z' then c + 32 else c

-- strings.ToLower
unfoldable pub to_lower : Text → Text
to_lower s = map lower_byte s

-- The pieces of s between the bytes b: strings.Split(s, b).
abbrev pub cons_head : ℕ → List Text → List Text
cons_head c [] = (c ∷ []) ∷ []
cons_head c (w ∷ ws) = (c ∷ w) ∷ ws

unfoldable pub split_on : ℕ → Text → List Text
split_on b [] = [] ∷ []
split_on b (c ∷ s) = let rest = split_on b s in if c == b then [] ∷ rest else cons_head c rest

abbrev pub first_piece : List Text → Text
first_piece [] = []
first_piece (w ∷ ws) = w

-- The text around the first byte b, as strings.SplitN(s, b, 2) cuts it; `none` where there is none.
abbrev pub cons_cut : ℕ → Option (Text × Text) → Option (Text × Text)
cons_cut c none = none
cons_cut c (some (before, after)) = some (c ∷ before, after)

unfoldable pub cut : ℕ → Text → Option (Text × Text)
cut b [] = none
cut b (c ∷ s) = let rest = cut b s in if c == b then some ([], s) else cons_cut c rest

-- strconv.FormatInt of a number, by digits.
unfoldable pub digits_fuel : ℕ → ℕ → Text → Text
digits_fuel zero n acc = acc
digits_fuel (suc f) n acc =
    let more = digits_fuel f (n / 10) ((48 + n % 10) ∷ acc) in
    if ltb n 10 then (48 + n) ∷ acc else more

unfoldable pub decimal : ℕ → Text
unfolding digits_fuel
decimal n = digits_fuel (suc n) n []

digits_fuel-digits :
    (b f n : ℕ) (acc : Text)
    → b < 48
    → has_byte b acc ≡ false
    → has_byte b (digits_fuel f n acc) ≡ false
unfolding digits_fuel has_byte
digits_fuel-digits b zero n acc h k = k
digits_fuel-digits b (suc f) n acc h k =
    ground (arith, digits_fuel-digits b f (n / 10) ((48 + n % 10) ∷ acc))

-- A decimal number has no byte below the digits.
pub decimal-digits : (b n : ℕ) → b < 48 → has_byte b (decimal n) ≡ false
unfolding decimal has_byte
decimal-digits b n h = digits_fuel-digits b (suc n) n [] h refl

digits_fuel-given : (f n : ℕ) (c : ℕ) (acc : Text) → is_empty (digits_fuel f n (c ∷ acc)) ≡ false
unfolding digits_fuel
digits_fuel-given zero n c acc = refl
digits_fuel-given (suc f) n c acc =
    ground (arith, digits_fuel-given f (n / 10) (48 + n % 10) (c ∷ acc))

pub decimal-given : (n : ℕ) → is_empty (decimal n) ≡ false
unfolding decimal digits_fuel
decimal-given n = ground (arith, digits_fuel-given n (n / 10) (48 + n % 10) [])

abbrev pub contains_text : List Text → Text → Bool
contains_text [] t = false
contains_text (x ∷ xs) t = if text_eq t x then true else contains_text xs t
