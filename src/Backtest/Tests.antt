-- ===== src/Backtest/Tests.antt =====
-- A small backtest of one instrument: five hourly bars, windows of one and two bars, and the
-- theorems at its run.
mod Accounting
mod Selector
mod Strategy
mod Trades
mod Lag
mod Loading
use bisfin.Backtest.Engine.Causality.{IsCausal, IsBacked, simulate-IsCausal, simulate-IsBacked}
use bisfin.Backtest.Engine.LongOnly.{simulate-AllLong}
use bisfin.Backtest.Accounting.Portfolio.{AllLong}
use bisfin.Backtest.Engine.Reconciled.{IsReconciled, simulate-IsReconciled}
use bisfin.Backtest.Engine.Rounds.{simulate_total}
use bisfin.Backtest.Engine.Decisions.{AreBuilt, IsInformed, AreNumbered, simulate-Decides}
use bisfin.Backtest.Accounting.Prices.{HasValidRates}
use bisfin.Base.Sort.{max_from}
use bisfin.Backtest.Accounting.{open_portfolio}
use bisfin.Backtest.Errors.{BacktestError}
use bisfin.Base.Result.{Result, ok, err}
use bisfin.Decimal.{dec, below_zero, eq, div, is_positive, abs, sub, neg, mul}
use bisfin.Backtest.Selector.{
  select_rows, ArtifactBarSelector, sort_groups, group_from, visible_bars, latest,
  decision_schedule, next_execution_bar, select_visible,
}
use bisfin.Base.{Option, List, ℕ, ◌∷◌, none, [], length, some, ◌≡◌, refl, keep, All, map, true}
use bisfin.Backtest.Contracts.{
  TransactionCostModelSpec, BacktestRunRequest, SmaParameters, DecisionBar, has_instrument,
}
use bisfin.Backtest.Engine.{
  Run, SimulationResult, Rendering, simulate, prepare, covers, decision_events, run_loop, conclude,
  final_valuations, execute_pending, process_events, event_times, events_of, get_elem?, elem,
  visibilities, instrument_for,
}

abbrev bar : ℕ → ℕ → ℕ → ℕ → DecisionBar
bar key revision available close = record {
  bar_open_ts = key;
  bar_series_id = 7;
  revision_no = revision;
  available_at = available;
  system_available_at = available;
  effective_available_at = available;
  close_price = dec close;
}

-- The bar of 20 is revised once, after the bar of 30 is available.
abbrev rows : List DecisionBar
rows =
    bar 0 1 5 10
    ∷ bar 10 1 15 12
    ∷ bar 20 1 25 13
    ∷ bar 30 1 35 9
    ∷ bar 20 2 36 14
    ∷ bar 40 1 45 8
    ∷ []

abbrev selector : ArtifactBarSelector
selector = record { rows_by_open = sort_groups (group_from [] rows) }

selected : select_rows rows ≡ ok selector
unfolding select_rows sort_groups group_from
selected = refl

abbrev costs : TransactionCostModelSpec
costs = record { commission_bps = dec 10; slippage_bps = dec 5; sell_tax_bps = dec 50 }

abbrev parameters : SmaParameters
parameters = record { fast_window = 1; slow_window = 2; target_quantity = dec 2 }

abbrev request : BacktestRunRequest
request = record {
  schema_version = 1;
  event_from = 0;
  event_to = 100;
  initial_capital = dec 1000;
  strategy = parameters;
  transaction_cost_model = costs;
  instruments =
      record {
        instrument_id = 1;
        signal_component_key = "daily";
        execution_component_key = "daily";
        valuation_component_key = "daily";
        execution_lag_seconds = 0;
      }
      ∷ [];
}

abbrev rendering : Rendering
rendering = record {
  run_identity = 114 ∷ [];
  str_decimal = λ x. x.scale ∷ [];
  state_hash = λ i cash state parameters. i ∷ [];
  input_hash = λ bars. length bars ∷ [];
}

abbrev run : Run
run = record {
  request = request;
  signal_selectors = (1, selector) ∷ [];
  execution_selectors = (1, selector) ∷ [];
  rendering = rendering;
}

abbrev no_result : SimulationResult
no_result = record {
  decisions = [];
  signals = [];
  orders = [];
  fills = [];
  cash = dec 0;
  positions = [];
  valuations = [];
  equity_base = dec 0;
}

abbrev result_of : Option (Result BacktestError SimulationResult) → SimulationResult
result_of none = no_result
result_of (some (err e)) = no_result
result_of (some (ok r)) = r

abbrev result : SimulationResult
result = result_of (simulate run none)

simulated : simulate run none ≡ some (ok result)
unfolding simulate prepare covers open_portfolio decision_events run_loop conclude final_valuations
    visible_bars latest keep max_from execute_pending process_events decision_schedule
    next_execution_bar event_times events_of select_visible has_instrument below_zero sort_groups
    group_from get_elem? elem eq visibilities div instrument_for is_positive abs sub neg mul
simulated = refl

-- One buy and one sell, each decided on a bar that is complete and filled at the next one.
fill_times : map (λ f. f.fill_ts) result.fills ≡ 25 ∷ 45 ∷ []
unfolding simulate prepare covers open_portfolio decision_events run_loop conclude final_valuations
    visible_bars latest keep max_from execute_pending process_events decision_schedule
    next_execution_bar event_times events_of select_visible has_instrument below_zero sort_groups
    group_from get_elem? elem eq visibilities div instrument_for is_positive abs sub neg mul
fill_times = refl

rates : HasValidRates costs
rates = record { commission = refl; slippage = refl; tax = refl }

built : AreBuilt run.execution_selectors
built = ((rows, selected), tt)

-- The whole simulation.
simulate_total_example : (r : Result BacktestError SimulationResult) × (simulate run none ≡ some r)
simulate_total_example = simulate_total run none

simulate-AllLong_example : AllLong result.positions
simulate-AllLong_example = simulate-AllLong run none result rates simulated

simulate-Decides_example : All (IsInformed 2) result.decisions × AreNumbered 0 result.decisions
simulate-Decides_example = simulate-Decides run none result built simulated

simulate-IsCausal_example : All (IsCausal run) result.orders
simulate-IsCausal_example = simulate-IsCausal run none result built simulated

simulate-IsBacked_example : All (IsBacked run result.orders) result.fills
simulate-IsBacked_example = simulate-IsBacked run none result built simulated

simulate-IsReconciled_example : IsReconciled run result
simulate-IsReconciled_example = simulate-IsReconciled run none result simulated
