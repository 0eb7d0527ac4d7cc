-- ===== src/Backtest/Tests/Trades.antt =====
-- The summary of one closed trade, which lost.
use bisfin.Backtest.Contracts.{sma_cross_long}
use bisfin.Backtest.Errors.{BacktestError}
use bisfin.Decimal.{dec}
use bisfin.Backtest.Trades.Counts.{sells, summary_counts}
use bisfin.Base.Result.{Result, ok, err}
use bisfin.Backtest.Engine.{SimulationResult, SimulatedOrder, SimulatedFill}
use bisfin.Backtest.Trades.{Summary, summary}
use bisfin.Base.{◌≡◌, ℕ, ◌∷◌, [], ◌+◌, ◌*◌, ◌≤◌, refl, some, none}
use bisfin.Backtest.Accounting.{OrderSide, buy, sell}
use bisfin.Backtest.Tests.{bar, no_result}

abbrev pub order : OrderSide → SimulatedOrder
order side = record {
  semantic_key = [];
  signal = record {
    decision_sequence = 1;
    instrument_id = 1;
    signal_ts = 15;
    target_quantity = dec 2;
    reason_code = sma_cross_long;
    trigger_bar = bar 10 1 15 12;
  };
  side = side;
  quantity = dec 2;
  submitted_at = 15;
  execution_bar = some (bar 20 1 25 13);
  rejected_reason = none;
}

abbrev pub fill : OrderSide → ℕ → SimulatedFill
fill side price = record {
  order = order side;
  fill_ts = 25;
  reference_bar = bar 20 1 25 13;
  reference_price = dec price;
  economics = record {
    side = side;
    quantity = dec 2;
    reference_price = dec price;
    execution_price = dec price;
    notional = dec (2 * price);
    commission_amount = dec 1;
    slippage_amount = dec 0;
    tax_amount = dec 0;
  };
}

abbrev result : SimulationResult
result = record no_result { fills = fill buy 13 ∷ fill sell 9 ∷ [] }

abbrev summed : Summary
summed = from (summary (dec 1000) (dec 990) result)
  where
    from : Result BacktestError Summary → Summary
    from (ok m) = m
    from (err e) = record {
      total_return = dec 0;
      max_drawdown = dec 0;
      trade_count = 9;
      winning_trade_count = 0;
      losing_trade_count = 0;
      win_rate = none;
      gross_pnl_base = dec 0;
      net_pnl_base = dec 0;
      total_cost_base = dec 0;
      realized_pnl_base = dec 0;
    }

sums : summary (dec 1000) (dec 990) result ≡ ok summed
unfolding summary
sums = refl

summary_counts_example :
    (summed.trade_count ≡ sells result.fills)
    × (summed.winning_trade_count + summed.losing_trade_count ≤ summed.trade_count)
summary_counts_example = summary_counts (dec 1000) (dec 990) result summed sums
