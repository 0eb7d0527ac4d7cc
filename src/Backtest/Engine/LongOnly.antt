-- ===== src/Backtest/Engine/LongOnly.antt =====
-- The positions of `simulate` in backtest/engine.py.
use bisfin.Base.{◌≡◌, Option, some, List, [], ◌∷◌, arith}
use bisfin.Base.Result.{Result, ok, err}
use bisfin.Decimal.{Decimal}
use bisfin.Backtest.Errors.{BacktestError}
use bisfin.Backtest.Contracts.{DecisionBar, TransactionCostModelSpec, RunInstrumentSpec}
use bisfin.Backtest.Accounting.{
  OrderSide, buy, sell, PricedFill, PositionState, LongOnlyPortfolio, price_fill, apply_fill,
}
use bisfin.Backtest.Accounting.Prices.{
  HasValidRates, price_fill_buy-IsCharged, required_cash-IsNonneg, price_fill-side,
}
use bisfin.Backtest.Accounting.Portfolio.{
  AllLong, IsFillable, apply_fill-AllLong, position-IsLong, open_portfolio-IsNonneg,
}
use bisfin.Backtest.Engine.{
  Run, SimulationResult, SimulatedOrder, Ledger, Selectors, book, positions_of, simulate,
}
use bisfin.Backtest.Engine.Outcome.{simulate-IsEnded}
use bisfin.Backtest.Engine.Booked.{ledger_ends}

-- A fill that `price_fill` made under valid rates can be booked.
price_fill-IsFillable :
    (side : OrderSide) (q p : Decimal) (c : TransactionCostModelSpec) (f : PricedFill)
    → HasValidRates c
    → price_fill side q p c ≡ ok f
    → IsFillable f
price_fill-IsFillable buy q p c f v h =
    let (hq, hp, charged) = price_fill_buy-IsCharged q p c f v h in
    record { quantity = charged.quantity; cost = λ e. required_cash-IsNonneg f e charged }
price_fill-IsFillable sell q p c f v h =
    let (e, hq) = price_fill-side sell q p c f h in
    record { quantity = hq; cost = λ b. absurd (ground arith) }

book-AllLong :
    (o : SimulatedOrder) (bar : DecisionBar) (f : PricedFill) (l : Ledger)
    (r : Result BacktestError PositionState × LongOnlyPortfolio)
    → AllLong r.1.positions
    → AllLong (book o bar f l.1 r).0.positions
book-AllLong o bar f l (ok s, p) h = h
book-AllLong o bar f l (err e, p) h = h

positions_of-AllLong :
    (p : LongOnlyPortfolio) (xs : List RunInstrumentSpec)
    → AllLong p.positions
    → AllLong (positions_of p xs)
positions_of-AllLong p [] h = tt
positions_of-AllLong p (x ∷ xs) h =
    (position-IsLong x.instrument_id p h, positions_of-AllLong p xs h)

-- A simulation that ends without an error reports no short position and no negative average cost,
-- if the cost rates are not negative.
pub simulate-AllLong :
    (run : Run) (v : Option Selectors) (r : SimulationResult)
    → HasValidRates run.request.transaction_cost_model
    → simulate run v ≡ some (ok r)
    → AllLong r.positions
simulate-AllLong run v r rates h =
    let e = simulate-IsEnded run v r h in
    let opened = open_portfolio-IsNonneg run.request.initial_capital e.portfolio e.opened in
    let costs = run.request.transaction_cost_model in
    let last =
      ledger_ends run (λ l. AllLong l.0.positions)
        (λ o bar f l priced k. book-AllLong o bar f l (apply_fill o.signal.instrument_id f l.0) (
          apply_fill-AllLong o.signal.instrument_id f l.0
            (price_fill-IsFillable o.side o.quantity bar.close_price costs f rates priced) k))
        e opened.1 in
    rw e.positions_lem (positions_of-AllLong e.last.portfolio run.request.instruments last)
