-- ===== src/Decimal/Signs.antt =====
-- The signs of decimal results.
use bisfin.Base.{ℕ, max, ◌≡◌, refl, true, false, arith, ltb}
use bisfin.Base.Int.{ℤ, pos, negsuc, pos_part, neg_part, ◌+ℤ◌, ◌-ℤ◌, ◌*ℤ◌, ltb_ℤ}
use bisfin.Decimal.{
  Decimal, dec, round, exact_quotient, align, add, sub, mul, div, neg, abs, lt, below_zero,
  is_positive, is_negative,
}

abbrev pub IsNonneg : Decimal → Type 0
IsNonneg x = neg_part x.coefficient ≡ 0

round-nonneg : (c : ℤ) → neg_part c ≡ 0 → neg_part (round c) ≡ 0
unfolding round
round-nonneg (pos n) h = refl
round-nonneg (negsuc n) h = absurd (omega arith)

pub dec-IsNonneg : (n : ℕ) → IsNonneg (dec n)
dec-IsNonneg n = refl

pub add-IsNonneg : (x y : Decimal) → IsNonneg x → IsNonneg y → IsNonneg (add x y)
unfolding add align ◌*ℤ◌ ◌+ℤ◌
add-IsNonneg x y h k =
    let s = max x.scale y.scale in round-nonneg (align x s +ℤ align y s) (ground arith)

pub mul-IsNonneg : (x y : Decimal) → IsNonneg x → IsNonneg y → IsNonneg (mul x y)
unfolding mul ◌*ℤ◌
mul-IsNonneg x y h k = round-nonneg (x.coefficient *ℤ y.coefficient) (ground arith)

pub sub-IsNonneg : (x y : Decimal) → lt x y ≡ false → IsNonneg (sub x y)
unfolding sub lt
sub-IsNonneg x y h =
    let s = max x.scale y.scale in round-nonneg (align x s -ℤ align y s) (ground arith)

-- `-y` at a common scale is the negation of `y` at that scale.
align-neg :
    (y : Decimal) (s : ℕ)
    → (pos_part (align (neg y) s) ≡ neg_part (align y s))
      × (neg_part (align (neg y) s) ≡ pos_part (align y s))
unfolding align neg ◌*ℤ◌
align-neg y s = ground arith

covers :
    (a b m : ℤ)
    → pos_part m ≡ neg_part b
    → neg_part m ≡ pos_part b
    → ltb_ℤ a m ≡ false
    → neg_part (a +ℤ b) ≡ 0
unfolding ◌+ℤ◌
covers a b m p q h = ground arith

-- If `-y` is covered by `x`, then `x + y` is not negative.
pub add-neg-IsNonneg : (x y : Decimal) → lt x (neg y) ≡ false → IsNonneg (add x y)
unfolding add lt neg
add-neg-IsNonneg x y h =
    let s = max x.scale y.scale in
    let (p, q) = align-neg y s in
    round-nonneg (align x s +ℤ align y s) (covers (align x s) (align y s) (align (neg y) s) p q h)

pub div-IsNonneg : (x y : Decimal) → IsNonneg x → IsNonneg y → IsNonneg (div x y)
unfolding div
div-IsNonneg x y h k = round-nonneg (exact_quotient x y) (ground arith)

pub abs-IsNonneg : (x : Decimal) → IsNonneg (abs x)
unfolding abs
abs-IsNonneg x = refl

pub below_zero-IsNonneg : (x : Decimal) → below_zero x ≡ false → IsNonneg x
unfolding below_zero
below_zero-IsNonneg x h = ground arith

pub is_positive-IsNonneg : (x : Decimal) → is_positive x ≡ true → IsNonneg x
unfolding is_positive
is_positive-IsNonneg x h = ground arith

pub neg-neg-IsNonneg : (x : Decimal) → IsNonneg x → IsNonneg (neg (neg x))
unfolding neg ◌-ℤ◌
neg-neg-IsNonneg x h = ground arith

-- A quotient by a number that may be of any sign is taken by the caller; the zero is not negative.

positive_sign : (c : ℤ) → ltb 0 (pos_part c) ≡ true → is_negative c ≡ false
positive_sign (pos n) h = refl
positive_sign (negsuc n) h = absurd (ground arith)

pub is_positive-below_zero : (x : Decimal) → is_positive x ≡ true → below_zero x ≡ false
unfolding is_positive below_zero
is_positive-below_zero x h = positive_sign x.coefficient h
