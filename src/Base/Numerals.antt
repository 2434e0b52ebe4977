-- ===== src/Base/Numerals.antt =====
-- Decimal numerals, as strconv.ParseInt reads and strconv.FormatInt writes them.
use Prim.Native.Nat.{ℕ, zero, suc, ◌+◌, ◌-◌, ◌*◌, ◌/◌, ◌%◌, ◌<◌}
use mathlib.Core.Path.{◌≡◌, ap, ◌∙◌}
use mathlib.Core.Logic.{inl, inr}
use mathlib.Core.Bool.{Bool, true, ◌&&◌}
use mathlib.Core.Option.{Option, none, some}
use mathlib.Core.List.{[], ◌∷◌}
use native.Mathlib.Omega.{arith}
use omni_blob.Base.Tests.{leb, ltb, if◌then◌else◌, Bool-cases}
use omni_blob.Base.Strings.{Text, decimal, digits_fuel}

abbrev pub is_digit : ℕ → Bool
is_digit c = leb 48 c && leb c 57

-- The value of the digits, read from the left.
unfoldable pub digits_value : ℕ → Text → Option ℕ
digits_value acc [] = some acc
digits_value acc (c ∷ s) =
    let rest = digits_value (acc * 10 + (c - 48)) s in if is_digit c then rest else none

digits_value-digit :
    (acc d : ℕ) (s : Text)
    → d < 10
    → digits_value acc ((48 + d) ∷ s) ≡ digits_value (acc * 10 + d) s
unfolding digits_value
digits_value-digit acc d s h =
    let e : is_digit (48 + d) ≡ true = ground arith in
    rw e (ap (λ k. digits_value k s) (omega arith))

-- `10 ^ k` for the digits that stand in the accumulator, and their value.
digits_fuel-value :
    (f n : ℕ) (s : Text) → n < f → digits_value 0 (digits_fuel f n s) ≡ digits_value n s
unfolding digits_fuel
digits_fuel-value zero n s h = elim h [ ]
digits_fuel-value (suc f) n s h = elim (Bool-cases (ltb n 10)) [
  | inl small ↦
      rw small (digits_value-digit 0 n s (ground arith) ∙ ap (λ k. digits_value k s) (omega arith))
  | inr large ↦ rw large (
      digits_fuel-value f (n / 10) ((48 + n % 10) ∷ s) (ground arith)
      ∙ digits_value-digit (n / 10) (n % 10) s (omega arith)
      ∙ ap (λ k. digits_value k s) (omega arith))
]

pub digits_value-decimal : (n : ℕ) → digits_value 0 (decimal n) ≡ some n
unfolding decimal digits_value
digits_value-decimal n = digits_fuel-value (suc n) n [] (omega arith)
