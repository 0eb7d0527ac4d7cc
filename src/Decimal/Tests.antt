-- ===== src/Decimal/Tests.antt =====
-- Decimal arithmetic at values worked out with Python's `decimal` module.
use bisfin.Base.{◌≡◌, refl, true}
use bisfin.Base.Int.{pos, negsuc}
use bisfin.Decimal.{Decimal, dec, add, sub, div, neg, eq}

abbrev third : Decimal
third = record { coefficient = pos 3333333333333333333333333333; scale = 28 }

-- `Decimal(1) / Decimal(3)`.
div-third : eq (div (dec 1) (dec 3)) third ≡ true
unfolding div eq
div-third = refl

-- `Decimal(2) / Decimal(3)` is rounded up in its last digit.
div_two_thirds :
    eq (div (dec 2) (dec 3)) (record { coefficient = pos 6666666666666666666666666667; scale = 28 })
    ≡ true
unfolding div eq
div_two_thirds = refl

-- `Decimal(10) ** 28 + Decimal("0.5")` is a tie, which goes to the even neighbour.
add_tie :
    eq (add (dec 10000000000000000000000000001) (dec 0)) (dec 10000000000000000000000000000) ≡ true
unfolding add eq
add_tie = refl

-- `Decimal("1.5") - Decimal("2.25")`.
sub_signs :
    eq
      (sub
        (record { coefficient = pos 15; scale = 1 })
        (record { coefficient = pos 225; scale = 2 }))
      (record { coefficient = negsuc 74; scale = 2 })
    ≡ true
unfolding sub eq
sub_signs = refl

-- `-Decimal(6) / Decimal(4)`.
div_negative : eq (div (neg (dec 6)) (dec 4)) (record { coefficient = negsuc 14; scale = 1 }) ≡ true
unfolding div eq neg
div_negative = refl
