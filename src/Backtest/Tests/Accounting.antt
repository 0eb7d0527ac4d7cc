-- ===== src/Backtest/Tests/Accounting.antt =====
-- Fills of backtest/accounting.py: a covered buy, and a sell of more than is held.
use bisfin.Backtest.Accounting.Prices.{IsCharged, price_fill_buy-IsCharged}
use bisfin.Backtest.Errors.{BacktestError, sell_exceeds_position, insufficient_cash}
use bisfin.Base.Result.{Result, err, ok}
use bisfin.Decimal.Signs.{IsNonneg}
use bisfin.Decimal.{is_positive, add, dec, lt, neg}
use bisfin.Backtest.Accounting.{
  apply_fill, PricedFill, position, LongOnlyPortfolio, price_fill, cash_delta, sell, buy,
}
use bisfin.Base.{◌≡◌, refl, true, arith, ◌∷◌, [], ◌⊎◌}
use bisfin.Backtest.Accounting.Portfolio.{
  AllLong, apply_fill-cash-IsNonneg, apply_fill-AllLong, IsFillable, apply_fill_refused,
}
use bisfin.Backtest.Tests.{costs, rates}

abbrev buy_fill : PricedFill
buy_fill = record {
  side = buy;
  quantity = dec 2;
  reference_price = dec 10;
  execution_price = dec 10;
  notional = dec 20;
  commission_amount = dec 1;
  slippage_amount = dec 0;
  tax_amount = dec 0;
}

abbrev portfolio : LongOnlyPortfolio
portfolio = record {
  cash = dec 100;
  positions = (1, record { quantity = dec 1; average_cost = dec 9; realized_pnl = dec 0 }) ∷ [];
}

portfolio-AllLong : AllLong portfolio.positions
portfolio-AllLong = (record { quantity = refl; average_cost = refl }, tt)

buy_fill-IsFillable : IsFillable buy_fill
unfolding cash_delta add neg
buy_fill-IsFillable = record { quantity = refl; cost = λ e. refl }

apply_fill-AllLong_example : AllLong (apply_fill 1 buy_fill portfolio).1.positions
apply_fill-AllLong_example =
    apply_fill-AllLong 1 buy_fill portfolio buy_fill-IsFillable portfolio-AllLong

buys : buy_fill.side ≡ sell → IsNonneg (cash_delta buy_fill)
buys e = absurd (ground arith)

apply_fill-cash-IsNonneg_example : IsNonneg (apply_fill 1 buy_fill portfolio).1.cash
apply_fill-cash-IsNonneg_example = apply_fill-cash-IsNonneg 1 buy_fill portfolio refl buys

abbrev sell_fill : PricedFill
sell_fill = record buy_fill { side = sell }

refuses : (apply_fill 1 sell_fill portfolio).0 ≡ err sell_exceeds_position
unfolding apply_fill lt
refuses = refl

apply_fill_refused_example :
    ((apply_fill 1 sell_fill portfolio).1 ≡ portfolio)
    × (((sell_fill.side ≡ buy)
          × (lt portfolio.cash (neg (cash_delta sell_fill)) ≡ true)
          × (sell_exceeds_position ≡ insufficient_cash))
        ⊎ ((sell_fill.side ≡ sell)
            × (lt (position 1 portfolio).quantity sell_fill.quantity ≡ true)
            × (sell_exceeds_position ≡ sell_exceeds_position)))
apply_fill_refused_example = apply_fill_refused 1 sell_fill portfolio sell_exceeds_position refuses

abbrev priced_buy : PricedFill
priced_buy = fill_from (price_fill buy (dec 2) (dec 10) costs)
  where
    fill_from : Result BacktestError PricedFill → PricedFill
    fill_from (ok f) = f
    fill_from (err e) = buy_fill

prices : price_fill buy (dec 2) (dec 10) costs ≡ ok priced_buy
unfolding price_fill is_positive
prices = refl

price_fill_buy-IsCharged_example :
    (is_positive (dec 2) ≡ true) × (is_positive (dec 10) ≡ true) × IsCharged priced_buy
price_fill_buy-IsCharged_example =
    price_fill_buy-IsCharged (dec 2) (dec 10) costs priced_buy rates prices
