-- ===== src/Api/Handler/Urls.antt =====
-- internal/api/handler.go: the bucket and the identifier in a file's URL.
use omni_blob.Base.{
  ℕ, ◌-◌, ◌^◌, ◌<◌, ◌≡◌, refl, sym, ap, ◌∙◌, Bool, true, false, some, [], ◌∷◌, ◌++◌, reverse, arith,
  leb, ◌==◌, Text, codes, is_empty, has_byte, has_byte-append, drop_while, trim_if, split_on,
  decimal, decimal-digits, decimal-given, digits_value, digits_value-decimal,
}
use mathlib.Core.List.{append_assoc, reverse-append, reverse-cons, reverse-reverse}
use omni_blob.FilePath.{slash}
use omni_blob.FilePath.Inside.{split_on-append, split_on-whole}
use omni_blob.Api.Handler.{bucket_and_id, number, parse_int, parse_digits}
use omni_blob.Api.Handler.Serve.{file_url}

parse_int-digits :
    (s : Text) (n : ℕ)
    → is_empty s ≡ false
    → has_byte b'-' s ≡ false
    → has_byte b'+' s ≡ false
    → digits_value 0 s ≡ some n
    → n < 2 ^ 63
    → parse_int s ≡ number n
unfolding parse_int has_byte parse_digits
parse_int-digits [] n g m p v h = absurd (ground arith)
parse_int-digits (c ∷ s) n g m p v h =
    let minus : (c == b'-') ≡ false = ground arith in
    let plus : (c == b'+') ≡ false = ground arith in
    let small : leb n (2 ^ 63 - 1) ≡ true = ground arith in
    rw (minus, parse_int, plus, v, small) refl

-- An identifier that is printed in decimal is read back, up to the largest of 64 bits.
pub parse_int-decimal : (n : ℕ) → n < 2 ^ 63 → parse_int (decimal n) ≡ number n
parse_int-decimal n h =
    parse_int-digits (decimal n) n (decimal-given n) (decimal-digits b'-' n (omega arith))
      (decimal-digits b'+' n (omega arith)) (digits_value-decimal n) h

abbrev is_slash : ℕ → Bool
is_slash c = c == slash

drop_while-kept :
    (s t : Text)
    → is_empty s ≡ false
    → has_byte slash s ≡ false
    → drop_while is_slash (s ++ t) ≡ s ++ t
unfolding drop_while has_byte
drop_while-kept [] t g h = absurd (ground arith)
drop_while-kept (c ∷ s) t g h = ground arith

has_byte-reverse : (b : ℕ) (s : Text) → has_byte b (reverse s) ≡ has_byte b s
unfolding has_byte
has_byte-reverse b [] = refl
has_byte-reverse b (c ∷ s) =
    rw (reverse-cons c s, has_byte-append b (reverse s) (c ∷ []), has_byte-reverse b s)
      (ground arith)

is_empty-append : (s : Text) (c : ℕ) → is_empty (s ++ (c ∷ [])) ≡ false
is_empty-append [] c = refl
is_empty-append (d ∷ s) c = refl

is_empty-reverse : (s : Text) → is_empty s ≡ false → is_empty (reverse s) ≡ false
is_empty-reverse [] h = absurd (ground arith)
is_empty-reverse (c ∷ s) h = rw (reverse-cons c s) (is_empty-append (reverse s) c)

trim-end :
    (t n : Text)
    → is_empty n ≡ false
    → has_byte slash n ≡ false
    → reverse (drop_while is_slash (reverse (t ++ n))) ≡ t ++ n
trim-end t n g h =
    rw
      (
        reverse-append t n,
        drop_while-kept (reverse n) (reverse t) (is_empty-reverse n g)
            (has_byte-reverse slash n ∙ h),
      )
      (ap reverse (sym (reverse-append t n)) ∙ reverse-reverse (t ++ n))

split_on-url :
    (m n : Text)
    → has_byte slash m ≡ false
    → has_byte slash n ≡ false
    → split_on slash (codes "api/v1/" ++ (m ++ (slash ∷ n))) ≡ codes "api" ∷ codes "v1" ∷ m ∷ n ∷ []
unfolding has_byte
split_on-url m n hm hn =
    split_on-append slash (codes "api") (codes "v1/" ++ (m ++ (slash ∷ n)))
    ∙ ap (λ l. split_on slash (codes "api") ++ l)
        (split_on-append slash (codes "v1") (m ++ (slash ∷ n)))
    ∙ (rw
        (
          split_on-whole slash (codes "api") refl,
          split_on-whole slash (codes "v1") refl,
          split_on-append slash m n,
          split_on-whole slash m hm,
          split_on-whole slash n hn,
        )
        refl)

trim-file_url :
    (m : Text) (n : ℕ)
    → trim_if is_slash (file_url m n) ≡ codes "api/v1/" ++ (m ++ (slash ∷ decimal n))
unfolding trim_if drop_while
trim-file_url m n =
    let assoc = append_assoc m (slash ∷ []) (decimal n) in
    ap (λ t. reverse (drop_while is_slash (reverse (codes "api/v1/" ++ t)))) (sym assoc)
    ∙ trim-end (codes "api/v1/" ++ (m ++ (slash ∷ []))) (decimal n) (decimal-given n)
        (decimal-digits slash n (omega arith))
    ∙ ap (λ t. codes "api/v1/" ++ t) assoc

-- The bucket and the identifier of a URL are those that it was made of, for a bucket without slashes.
pub bucket_and_id-file_url :
    (m : Text) (n : ℕ)
    → has_byte slash m ≡ false
    → bucket_and_id (file_url m n) ≡ some (m, decimal n)
unfolding bucket_and_id
bucket_and_id-file_url m n h =
    rw (trim-file_url m n, split_on-url m (decimal n) h (decimal-digits slash n (omega arith))) refl
