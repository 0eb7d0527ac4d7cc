-- ===== src/Backtest/Accounting.antt =====
-- backtest/accounting.py: the price of a fill, and the long-only portfolio.
pub mod Prices
pub mod Portfolio
pub mod Movements
use bisfin.Base.{ℕ, true, false, none, some, List, [], ◌∷◌, ◌==◌, not, ◌||◌, if◌then◌else◌}
use bisfin.Base.Int.{negsuc}
use bisfin.Base.Result.{Result, ok, err}
use bisfin.Decimal.{
  Decimal, dec, add, sub, mul, div, neg, abs, lt, is_positive, below_zero, is_zero,
}
use bisfin.Backtest.Errors.{
  BacktestError, nonpositive_fill, negative_initial_cash, insufficient_cash, sell_exceeds_position,
}
use bisfin.Backtest.Contracts.{TransactionCostModelSpec}

pub data OrderSide : Type 0 where
  buy sell : OrderSide

pub record PricedFill : Type 0 where
  pub side : OrderSide
  pub quantity : Decimal
  pub reference_price : Decimal
  pub execution_price : Decimal
  pub notional : Decimal
  pub commission_amount : Decimal
  pub slippage_amount : Decimal
  pub tax_amount : Decimal

abbrev cash_delta_for : OrderSide → PricedFill → Decimal
cash_delta_for buy f = neg (add (add f.notional f.commission_amount) f.tax_amount)
cash_delta_for sell f = sub (sub f.notional f.commission_amount) f.tax_amount

unfoldable pub cash_delta : PricedFill → Decimal
cash_delta f = cash_delta_for f.side f

pub record PositionState : Type 0 where
  pub quantity : Decimal
  pub average_cost : Decimal
  pub realized_pnl : Decimal

abbrev pub no_position : PositionState
no_position = record { quantity = dec 0; average_cost = dec 0; realized_pnl = dec 0 }

abbrev bps_divisor : Decimal
bps_divisor = dec 10000

abbrev direction : OrderSide → Decimal
direction buy = dec 1
direction sell = record { coefficient = negsuc 0; scale = 0 }

abbrev tax_for : OrderSide → Decimal → TransactionCostModelSpec → Decimal
tax_for buy notional costs = dec 0
tax_for sell notional costs = div (mul notional costs.sell_tax_bps) bps_divisor

-- The eight fields of the returned `PricedFill`.
priced : OrderSide → Decimal → Decimal → TransactionCostModelSpec → PricedFill
priced side quantity reference_price costs =
    let execution_price =
      mul reference_price
        (add (dec 1) (div (mul (direction side) costs.slippage_bps) bps_divisor)) in
    let notional = mul execution_price quantity in
    record {
      side = side;
      quantity = quantity;
      reference_price = reference_price;
      execution_price = execution_price;
      notional = notional;
      commission_amount = div (mul notional costs.commission_bps) bps_divisor;
      slippage_amount = mul (abs (sub execution_price reference_price)) quantity;
      tax_amount = tax_for side notional costs;
    }

unfoldable pub price_fill :
    OrderSide → Decimal → Decimal → TransactionCostModelSpec → Result BacktestError PricedFill
unfolding priced
price_fill side quantity reference_price costs =
    if not (is_positive quantity) || not (is_positive reference_price)
    then err nonpositive_fill
    else ok (priced side quantity reference_price costs)

pub record LongOnlyPortfolio : Type 0 where
  pub cash : Decimal
  pub positions : List (ℕ × PositionState)

-- `LongOnlyPortfolio.__init__`.
unfoldable pub open_portfolio : Decimal → Result BacktestError LongOnlyPortfolio
open_portfolio cash =
    if below_zero cash
    then err negative_initial_cash
    else ok (record { cash = cash; positions = [] })

-- `_positions.get(instrument_id, PositionState())`.
unfoldable pub held : ℕ → List (ℕ × PositionState) → PositionState
held i [] = no_position
held i ((j, s) ∷ ps) = if j == i then s else held i ps

unfoldable pub position : ℕ → LongOnlyPortfolio → PositionState
unfolding held
position i p = held i p.positions

-- `_positions[instrument_id] = state`.
unfoldable pub store : ℕ → PositionState → List (ℕ × PositionState) → List (ℕ × PositionState)
store i s [] = (i, s) ∷ []
store i s ((j, t) ∷ ps) = if j == i then (i, s) ∷ ps else (j, t) ∷ store i s ps

bought : PositionState → PricedFill → PositionState
unfolding cash_delta
bought state f =
    let required_cash = neg (cash_delta f) in
    let total_cost = add (mul state.average_cost state.quantity) required_cash in
    let quantity = add state.quantity f.quantity in
    record {
      quantity = quantity;
      average_cost = div total_cost quantity;
      realized_pnl = state.realized_pnl;
    }

sold : PositionState → PricedFill → PositionState
sold state f =
    let gain = mul (sub f.execution_price state.average_cost) f.quantity in
    let realized_delta = sub (sub gain f.commission_amount) f.tax_amount in
    let quantity = sub state.quantity f.quantity in
    record {
      quantity = quantity;
      average_cost = if is_zero quantity then dec 0 else state.average_cost;
      realized_pnl = add state.realized_pnl realized_delta;
    }

-- The new position, or the reason why the fill is refused.
next_state : OrderSide → PricedFill → Decimal → PositionState → Result BacktestError PositionState
unfolding bought sold
next_state buy f cash state =
    if lt cash (neg (cash_delta f)) then err insufficient_cash else ok (bought state f)
next_state sell f cash state =
    if lt state.quantity f.quantity then err sell_exceeds_position else ok (sold state f)

abbrev record_fill :
    ℕ
    → PricedFill
    → LongOnlyPortfolio
    → Result BacktestError PositionState
    → Result BacktestError PositionState × LongOnlyPortfolio
record_fill i f p (err e) = (err e, p)
record_fill i f p (ok s) =
    (ok s, record { cash = add p.cash (cash_delta f); positions = store i s p.positions })

-- `apply_fill`: the result, and the portfolio as the call leaves it.
unfoldable pub apply_fill :
    ℕ → PricedFill → LongOnlyPortfolio → Result BacktestError PositionState × LongOnlyPortfolio
unfolding next_state cash_delta position store
apply_fill i f p = record_fill i f p (next_state f.side f p.cash (position i p))
