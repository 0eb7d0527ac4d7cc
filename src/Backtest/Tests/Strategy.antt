-- ===== src/Backtest/Tests/Strategy.antt =====
-- A view of backtest/strategies.py with a full slow window.
use bisfin.Backtest.Strategy.Decisions.{decide_window}
use bisfin.Decimal.{dec}
use bisfin.Backtest.Selector.{visible_bars}
use bisfin.Backtest.Contracts.{DecisionView}
use bisfin.Backtest.Strategy.{decide}
use bisfin.Base.{last_n, ◌≡◌}
use bisfin.Backtest.Tests.{selector, parameters}

abbrev view : DecisionView
view = record {
  instrument_id = 1;
  decision_ts = 36;
  visible_bars = visible_bars selector 36;
  current_quantity = dec 0;
  average_cost = dec 0;
  realized_pnl = dec 0;
  cash = dec 1000;
  parameters = parameters;
}

decide_window_example :
    decide (record view { visible_bars = last_n 2 (visible_bars selector 36) }) ≡ decide view
decide_window_example = decide_window view
