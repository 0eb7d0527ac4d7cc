-- ===== src/Backtest/Accounting/Prices.antt =====
-- What `price_fill` of accounting.py charges.
use bisfin.Base.{◌≡◌, refl, subst, Bool-cases, inl, inr, true, arith}
use bisfin.Base.Result.{ok}
use bisfin.Decimal.{Decimal, dec, add, mul, div, neg, abs, sub, is_positive}
use bisfin.Decimal.Signs.{
  IsNonneg, add-IsNonneg, mul-IsNonneg, div-IsNonneg, abs-IsNonneg, is_positive-IsNonneg,
  neg-neg-IsNonneg,
}
use bisfin.Backtest.Contracts.{TransactionCostModelSpec}
use bisfin.Backtest.Accounting.{
  OrderSide, buy, PricedFill, priced, price_fill, cash_delta, bps_divisor,
}

-- `validate_non_negative_bps` holds of the three rates.
pub record HasValidRates (c : TransactionCostModelSpec) : Type 0 where
  pub commission : IsNonneg c.commission_bps
  pub slippage : IsNonneg c.slippage_bps
  pub tax : IsNonneg c.sell_tax_bps

-- A buy whose every amount is at least zero and that carries no tax.
pub record IsCharged (f : PricedFill) : Type 0 where
  pub quantity : IsNonneg f.quantity
  pub execution_price : IsNonneg f.execution_price
  pub notional : IsNonneg f.notional
  pub commission : IsNonneg f.commission_amount
  pub slippage : IsNonneg f.slippage_amount
  pub tax : f.tax_amount ≡ dec 0

bps-IsNonneg : (x y : Decimal) → IsNonneg x → IsNonneg y → IsNonneg (div (mul x y) bps_divisor)
bps-IsNonneg x y h k = div-IsNonneg (mul x y) bps_divisor (mul-IsNonneg x y h k) refl

price_factor-IsNonneg :
    (c : TransactionCostModelSpec)
    → HasValidRates c
    → IsNonneg (add (dec 1) (div (mul (dec 1) c.slippage_bps) bps_divisor))
price_factor-IsNonneg c v =
    add-IsNonneg (dec 1) (div (mul (dec 1) c.slippage_bps) bps_divisor) refl
      (bps-IsNonneg (dec 1) c.slippage_bps refl v.slippage)

module _ (q p : Decimal) (c : TransactionCostModelSpec) (v : HasValidRates c) where
  priced_buy-IsCharged : IsNonneg q → IsNonneg p → IsCharged (priced buy q p c)
  unfolding priced
  priced_buy-IsCharged hq hp =
      let factor = add (dec 1) (div (mul (dec 1) c.slippage_bps) bps_divisor) in
      let price = mul-IsNonneg p factor hp (price_factor-IsNonneg c v) in
      let notional = mul-IsNonneg (mul p factor) q price hq in
      record {
        quantity = hq;
        execution_price = price;
        notional = notional;
        commission = bps-IsNonneg (mul (mul p factor) q) c.commission_bps notional v.commission;
        slippage =
            mul-IsNonneg (abs (sub (mul p factor) p)) q (abs-IsNonneg (sub (mul p factor) p)) hq;
        tax = refl;
      }

-- A buy that is priced under valid rates has a positive quantity and price, amounts that are at
-- least zero, and no tax.
pub price_fill_buy-IsCharged :
    (q p : Decimal) (c : TransactionCostModelSpec) (f : PricedFill)
    → HasValidRates c
    → price_fill buy q p c ≡ ok f
    → (is_positive q ≡ true) × (is_positive p ≡ true) × IsCharged f
unfolding price_fill
price_fill_buy-IsCharged q p c f v h = elim (Bool-cases (is_positive q)) [
  | inr e ↦ absurd (ground arith)
  | inl hq ↦ elim (Bool-cases (is_positive p)) [
    | inr e ↦ absurd (ground arith)
    | inl hp ↦ (
      hq,
      hp,
      subst IsCharged (priced_ok hq hp)
          (priced_buy-IsCharged q p c v (is_positive-IsNonneg q hq) (is_positive-IsNonneg p hp)),
    )
  ]
]
  where
    priced_ok : is_positive q ≡ true → is_positive p ≡ true → priced buy q p c ≡ f
    priced_ok hq hp = ground arith

-- The cash that such a buy requires is at least zero.
pub required_cash-IsNonneg :
    (f : PricedFill) → f.side ≡ buy → IsCharged f → IsNonneg (neg (cash_delta f))
unfolding cash_delta
required_cash-IsNonneg f e h = rw e (
    neg-neg-IsNonneg (add (add f.notional f.commission_amount) f.tax_amount) (
      add-IsNonneg (add f.notional f.commission_amount) f.tax_amount
        (add-IsNonneg f.notional f.commission_amount h.notional h.commission) (rw h.tax refl)))

-- A priced fill keeps the side that was asked for, and its quantity is positive.
pub price_fill-side :
    (side : OrderSide) (q p : Decimal) (c : TransactionCostModelSpec) (f : PricedFill)
    → price_fill side q p c ≡ ok f
    → (f.side ≡ side) × IsNonneg f.quantity
unfolding price_fill
price_fill-side side q p c f h = elim (Bool-cases (is_positive q)) [
  | inr e ↦ absurd (ground arith)
  | inl hq ↦ (ground arith, subst IsNonneg (same hq) (is_positive-IsNonneg q hq))
]
  where
    same : is_positive q ≡ true → q ≡ f.quantity
    same e = ground arith
