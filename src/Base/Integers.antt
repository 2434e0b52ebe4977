-- ===== src/Base/Integers.antt =====
-- Signed integers over the native numbers, with strconv.Atoi.
use Prim.Native.Nat.{ℕ, zero, suc, ◌-◌, ◌^◌}
use mathlib.Core.Bool.{Bool, true, false}
use mathlib.Core.Option.{Option, none, some}
use mathlib.Core.List.{[], ◌∷◌}
use omni_blob.Base.Tests.{leb, ◌==◌, if◌then◌else◌}
use omni_blob.Base.Strings.{Text}
use omni_blob.Base.Numerals.{digits_value}

-- `pos n` is n, and `negsuc n` is -(n + 1).
pub data ℤ : Type 0 where
  pos negsuc : ℕ → ℤ

abbrev pub negate : ℕ → ℤ
negate zero = pos zero
negate (suc n) = negsuc n

abbrev pub is_positive : ℤ → Bool
is_positive (pos zero) = false
is_positive (pos (suc n)) = true
is_positive (negsuc n) = false

abbrev pub magnitude : Text → Option ℕ
magnitude [] = none
magnitude (c ∷ s) = digits_value 0 (c ∷ s)

abbrev pub signed_within : (ℕ → ℤ) → ℕ → Option ℕ → Option ℤ
signed_within f max none = none
signed_within f max (some n) = if leb n max then some (f n) else none

-- strconv.Atoi on a machine of 64 bits: an optional sign, digits, and a value in range.
unfoldable pub atoi : Text → Option ℤ
unfolding digits_value
atoi [] = none
atoi (c ∷ s) =
    if c == b'-'
    then signed_within negate (2 ^ 63) (magnitude s)
    else if c == b'+'
    then signed_within pos (2 ^ 63 - 1) (magnitude s)
    else signed_within pos (2 ^ 63 - 1) (magnitude (c ∷ s))
