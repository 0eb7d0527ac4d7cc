-- ===== src/Decimal.antt =====
-- The decimal numbers that src/bisfin computes with: Python's `decimal.Decimal` under its default
-- context (28 significant digits, ROUND_HALF_EVEN). A finite value is coefficient / 10 ^ scale.
-- The sign of a zero and the exponent kept for printing are left out: they decide no comparison and
-- no result. The exponent limits of the context (10 ^ 999999) are not modelled.
pub mod Signs
mod Tests
use bisfin.Base.{
  ℕ, zero, suc, ◌+◌, ◌-◌, ◌*◌, ◌/◌, ◌%◌, ◌^◌, max, Bool, true, false, ltb, ◌==◌, not, ◌&&◌, ◌||◌,
  List, [], ◌∷◌, if◌then◌else◌,
}
use bisfin.Base.Int.{ℤ, pos, negsuc, sub_ℕ, pos_part, neg_part, ◌+ℤ◌, ◌-ℤ◌, ◌*ℤ◌, ltb_ℤ}

pub record Decimal : Type 0 where
  pub coefficient : ℤ
  pub scale : ℕ

abbrev pub dec : ℕ → Decimal
dec n = record { coefficient = pos n; scale = 0 }

abbrev pub precision : ℕ
precision = 28

-- The number of decimal digits, on fuel: `n` rounds are enough for `n`.
digits_within : ℕ → ℕ → ℕ
digits_within zero n = 1
digits_within (suc fuel) n = elim (ltb n 10) [
  | true ↦ 1
  | false ↦ suc (digits_within fuel (n / 10))
]

num_digits : ℕ → ℕ
unfolding digits_within
num_digits n = digits_within n n

-- `n / 10 ^ d` to the nearest integer, a tie to the even one.
round_half_even : ℕ → ℕ → ℕ
round_half_even n d =
    let unit = 10 ^ d in
    let q = n / unit in
    let twice = 2 * (n % unit) in
    if ltb twice unit then q else if ltb unit twice then suc q else q + q % 2

-- A magnitude rounded to the context's precision, at its own scale.
round_magnitude : ℕ → ℕ
unfolding num_digits round_half_even
round_magnitude n =
    let excess = num_digits n - precision in
    if excess == 0 then n else round_half_even n excess * 10 ^ excess

abbrev minus_ℕ : ℕ → ℤ
minus_ℕ n = sub_ℕ 0 n

-- `Context._fix`: the sign is kept.
round : ℤ → ℤ
unfolding round_magnitude
round (pos n) = pos (round_magnitude n)
round (negsuc n) = minus_ℕ (round_magnitude (suc n))

-- The coefficient of `x` at a scale of `s`, which is at least its own.
align : Decimal → ℕ → ℤ
align x s = x.coefficient *ℤ pos (10 ^ (s - x.scale))

-- `x + y`.
unfoldable pub add : Decimal → Decimal → Decimal
unfolding align round ◌*ℤ◌ ◌+ℤ◌
add x y =
    let s = max x.scale y.scale in
    record { coefficient = round (align x s +ℤ align y s); scale = s }

-- `x - y`.
unfoldable pub sub : Decimal → Decimal → Decimal
unfolding align round ◌*ℤ◌ ◌-ℤ◌
sub x y =
    let s = max x.scale y.scale in
    record { coefficient = round (align x s -ℤ align y s); scale = s }

-- `x * y`.
unfoldable pub mul : Decimal → Decimal → Decimal
unfolding round ◌*ℤ◌
mul x y = record { coefficient = round (x.coefficient *ℤ y.coefficient); scale = x.scale + y.scale }

abbrev magnitude : Decimal → ℕ
magnitude x = pos_part x.coefficient + neg_part x.coefficient

abbrev bool_eq : Bool → Bool → Bool
bool_eq true b = b
bool_eq false b = not b

abbrev is_negative : ℤ → Bool
is_negative (pos n) = false
is_negative (negsuc n) = true

-- The quotient of two magnitudes with a digit to spare, and a last digit that tells the rounding
-- that the division was not exact.
sticky_quotient : ℕ → ℕ → ℕ
sticky_quotient n m = let q = n / m in if (n % m == 0) || not (q % 5 == 0) then q else suc q

-- The quotient before rounding, its coefficient at the scale `x.scale + spare_digits x y`.
spare_digits : Decimal → Decimal → ℕ
unfolding num_digits
spare_digits x y = num_digits (magnitude y) + precision + 1 - num_digits (magnitude x)

exact_quotient : Decimal → Decimal → ℤ
unfolding spare_digits sticky_quotient
exact_quotient x y =
    let down = num_digits (magnitude x) - (num_digits (magnitude y) + precision + 1) in
    let q = sticky_quotient (magnitude x * 10 ^ spare_digits x y) (magnitude y * 10 ^ down) in
    let scaled = q * 10 ^ (y.scale + down) in
    if bool_eq (is_negative x.coefficient) (is_negative y.coefficient)
    then pos scaled
    else minus_ℕ scaled

-- `x / y` by `Decimal.__truediv__`; a zero divisor raises in Python and never occurs in the source,
-- where each divisor is positive by an earlier check, and here gives zero.
unfoldable pub div : Decimal → Decimal → Decimal
unfolding exact_quotient round
div x y = record { coefficient = round (exact_quotient x y); scale = x.scale + spare_digits x y }

-- `-x` and `abs(x)`: the source applies them to results only, which are rounded already.
unfoldable pub neg : Decimal → Decimal
unfolding ◌-ℤ◌
neg x = record x { coefficient = pos 0 -ℤ x.coefficient }

unfoldable pub abs : Decimal → Decimal
abs x = record x { coefficient = pos (magnitude x) }

-- `x < y`, `x > y` and `x == y` compare the exact values.
unfoldable pub lt : Decimal → Decimal → Bool
unfolding align ◌*ℤ◌
lt x y = let s = max x.scale y.scale in ltb_ℤ (align x s) (align y s)

unfoldable pub eq : Decimal → Decimal → Bool
unfolding lt
eq x y = not (lt x y) && not (lt y x)

-- `x > 0` and `x < 0`.
unfoldable pub is_positive : Decimal → Bool
is_positive x = ltb 0 (pos_part x.coefficient)

unfoldable pub below_zero : Decimal → Bool
below_zero x = is_negative x.coefficient

-- `not x`, for a decimal.
unfoldable pub is_zero : Decimal → Bool
is_zero x = magnitude x == 0

-- Python's `sum`, from the left.
unfoldable pub sum_from : Decimal → List Decimal → Decimal
unfolding add
sum_from acc [] = acc
sum_from acc (x ∷ xs) = sum_from (add acc x) xs
