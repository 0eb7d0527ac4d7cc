-- ===== src/Backtest/Tests/Lag.antt =====
-- A run of rising closes with a lag longer than the spacing of the bars: backtest/engine.py buys
-- twice and sells twice, and _closed_trade_pnls of backtest/service.py finds no entry for the second
-- sell.
use bisfin.Base.{ℕ, List, [], ◌∷◌, ◌≡◌, ◌*◌, ◌+◌, ◌++◌, none, zero, suc, refl, keep}
use bisfin.Base.Sort.{max_from}
use bisfin.Base.Result.{err}
use bisfin.Decimal.{dec, below_zero, eq, div, is_positive, abs, sub, neg, mul}
use bisfin.Backtest.Errors.{sell_without_entry}
use bisfin.Backtest.Contracts.{DecisionBar, BacktestRunRequest, has_instrument}
use bisfin.Backtest.Accounting.{buy, open_portfolio}
use bisfin.Backtest.Selector.{
  ArtifactBarSelector, sort_groups, group_from, visible_bars, latest, decision_schedule,
  next_execution_bar, select_visible,
}
use bisfin.Backtest.Engine.{
  Run, SimulatedFill, SimulationResult, simulate, prepare, covers, decision_events, run_loop,
  conclude, final_valuations, execute_pending, process_events, event_times, events_of, get_elem?,
  elem, visibilities, instrument_for,
}
use bisfin.Backtest.Trades.{summary}
use bisfin.Backtest.Trades.Unmatched.{IsSellOf, summary_unmatched}
use bisfin.Backtest.Tests.Trades.{fill}
use bisfin.Backtest.Tests.{bar, costs, parameters, rendering, result_of}

-- The bar that opens after `k` times ten seconds and is available five seconds later.
abbrev nth : ℕ → DecisionBar
nth k = bar (k * 10000000) 1 (k * 10000000 + 5000000) (k + 10)

abbrev rising : List DecisionBar
rising = nth 0 ∷ nth 1 ∷ nth 2 ∷ nth 3 ∷ nth 4 ∷ nth 5 ∷ nth 6 ∷ nth 7 ∷ []

abbrev rising_selector : ArtifactBarSelector
rising_selector = record { rows_by_open = sort_groups (group_from [] rising) }

abbrev slow_request : BacktestRunRequest
slow_request = record {
  schema_version = 1;
  event_from = 0;
  event_to = 100000000;
  initial_capital = dec 1000;
  strategy = parameters;
  transaction_cost_model = costs;
  instruments =
      record {
        instrument_id = 1;
        signal_component_key = "daily";
        execution_component_key = "daily";
        valuation_component_key = "daily";
        execution_lag_seconds = 15;
      }
      ∷ [];
}

abbrev slow_run : Run
slow_run = record {
  request = slow_request;
  signal_selectors = (1, rising_selector) ∷ [];
  execution_selectors = (1, rising_selector) ∷ [];
  rendering = rendering;
}

abbrev slow_result : SimulationResult
slow_result = result_of (simulate slow_run none)

abbrev fill_at : List SimulatedFill → ℕ → SimulatedFill
fill_at [] n = fill buy 0
fill_at (f ∷ fs) zero = f
fill_at (f ∷ fs) (suc n) = fill_at fs n

abbrev nth_fill : ℕ → SimulatedFill
nth_fill n = fill_at slow_result.fills n

-- Four fills, of which the last two are sells.
four_fills :
    (slow_result.fills ≡ (nth_fill 0 ∷ nth_fill 1 ∷ []) ++ nth_fill 2 ∷ ([] ++ nth_fill 3 ∷ []))
    × IsSellOf 1 (nth_fill 2)
    × IsSellOf 1 (nth_fill 3)
unfolding simulate prepare covers open_portfolio decision_events run_loop conclude final_valuations
    visible_bars latest keep max_from execute_pending process_events decision_schedule
    next_execution_bar event_times events_of select_visible has_instrument below_zero sort_groups
    group_from get_elem? elem eq visibilities div instrument_for is_positive abs sub neg mul
four_fills = (refl, (refl, refl), (refl, refl))

summary_unmatched_example :
    summary (dec 1000) slow_result.equity_base slow_result ≡ err sell_without_entry
summary_unmatched_example =
    summary_unmatched (dec 1000) slow_result.equity_base slow_result 1 (nth_fill 2) (nth_fill 3)
      (nth_fill 0 ∷ nth_fill 1 ∷ []) [] [] four_fills.0 four_fills.1 tt four_fills.2
