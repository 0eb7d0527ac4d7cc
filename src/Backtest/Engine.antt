-- ===== src/Backtest/Engine.antt =====
-- backtest/engine.py: the deterministic simulator. A timestamp is a number of microseconds, a
-- mapping an association list, and the local variables of `simulate` are the record `Simulation`.
-- A `KeyError` of a mapping is the error `key_error`.
mod Records
mod Keys
mod Events
mod Fills
mod Instants
pub use Records.*
pub use Keys.*
pub use Events.*
pub use Fills.*
pub use Instants.*
unfoldable pub use Keys.{str_ℕ, semantic_key_of, leb_text}
unfoldable pub use Events.{
  selector_for, instrument_for, covers, elem, get_elem?, events_of, decision_events,
  final_valuations,
}
unfoldable pub use Fills.{
  execute_at, execute_orders, execute_pending, pending_at, without_pending, add_pending, add_time,
}
unfoldable pub use Instants.{distinct, event_times, visibilities, group_visibilities}
mod Steps
mod Booked
mod Outcome
pub mod LongOnly
pub mod Rounds
pub mod Decisions
pub mod Causality
pub mod Reconciled
use bisfin.Base.{
  ℕ, zero, suc, ◌+◌, Bool, true, false, not, ◌&&◌, Option, none, some, List, [], ◌∷◌, ◌++◌, ◌==◌,
  length, last_n, map, keep, if◌then◌else◌,
}
use bisfin.Base.Result.{Result, ok, err, raise_if, ◌>>=◌, ◌>>◌}
use bisfin.Decimal.{Decimal, dec, add, sub, abs, lt, eq, sum_from}
use bisfin.Backtest.Errors.{BacktestError, missing_run_data, missing_valuation_data}
use bisfin.Backtest.Contracts.{
  BacktestRunRequest, RunInstrumentSpec, DecisionBar, DecisionView, TargetPositionIntent,
}
use bisfin.Backtest.Accounting.{
  buy, sell, PositionState, LongOnlyPortfolio, open_portfolio, position,
}
use bisfin.Backtest.Selector.{ArtifactBarSelector, visible_bars, next_execution_bar, microseconds}
use bisfin.Backtest.Strategy.{decide}

-- What the rest of an iteration reads of the run.
pub record Run : Type 0 where
  pub request : BacktestRunRequest
  pub signal_selectors : Selectors
  pub execution_selectors : Selectors
  pub rendering : Rendering

abbrev signal_for : SimulatedDecision → TargetPositionIntent → SimulatedSignal
signal_for d intent = record {
  decision_sequence = d.sequence;
  instrument_id = d.instrument_id;
  signal_ts = d.decision_ts;
  target_quantity = intent.target_quantity;
  reason_code = intent.reason_code;
  trigger_bar = d.trigger_bar;
}

abbrev rejection : Option DecisionBar → Option RejectedReason
rejection none = some no_eligible_execution_bar
rejection (some bar) = none

abbrev schedule : SimulatedOrder → Option DecisionBar → Simulation → Simulation
schedule order none s = s
schedule order (some bar) s = record s {
  pending = add_pending bar.effective_available_at order s.pending;
  all_times = add_time bar.effective_available_at s.all_times;
}

abbrev advance : Simulation → Simulation
advance s = record s { index = s.index + 1 }

abbrev falls_at : ℕ → DecisionEvent → Bool
falls_at ts e = e.decision_ts == ts

abbrev proceed :
    (Simulation → Option (Result BacktestError Simulation))
    → Result BacktestError Simulation
    → Option (Result BacktestError Simulation)
proceed k (err e) = some (err e)
proceed k (ok s) = k s

module _ (run : Run) where
  open run use {request, signal_selectors, execution_selectors, rendering}

  abbrev decision_for : DecisionEvent → ArtifactBarSelector → Simulation → SimulatedDecision
  decision_for e selector s =
      let inputs = last_n request.strategy.slow_window (visible_bars selector e.decision_ts) in
      let state = position e.instrument_id s.portfolio in
      record {
        sequence = length s.decisions + 1;
        instrument_id = e.instrument_id;
        decision_ts = e.decision_ts;
        trigger_bar = e.trigger_bar;
        inputs = inputs;
        state_sha256 = rendering.state_hash e.instrument_id s.portfolio.cash state request.strategy;
        input_manifest_sha256 = rendering.input_hash inputs;
      }

  abbrev view_for : SimulatedDecision → Simulation → DecisionView
  view_for d s =
      let state = position d.instrument_id s.portfolio in
      record {
        instrument_id = d.instrument_id;
        decision_ts = d.decision_ts;
        visible_bars = d.inputs;
        current_quantity = state.quantity;
        average_cost = state.average_cost;
        realized_pnl = state.realized_pnl;
        cash = s.portfolio.cash;
        parameters = request.strategy;
      }

  abbrev order_for : SimulatedSignal → Decimal → Option DecisionBar → SimulatedOrder
  order_for signal current bar = record {
    semantic_key =
        semantic_key_of rendering signal.decision_sequence signal.instrument_id
          signal.target_quantity;
    signal = signal;
    side = if lt current signal.target_quantity then buy else sell;
    quantity = abs (sub signal.target_quantity current);
    submitted_at = signal.signal_ts;
    execution_bar = bar;
    rejected_reason = rejection bar;
  }

  -- The signal and the order of a decision that changes the target.
  unfoldable pub submit :
      SimulatedDecision → TargetPositionIntent → Simulation → Result BacktestError Simulation
  unfolding add_pending add_time semantic_key_of
  submit d intent s = do
    instrument ← instrument_for d.instrument_id request.instruments
    selector ← selector_for d.instrument_id execution_selectors
    let signal = signal_for d intent
    let bar =
        next_execution_bar selector d.trigger_bar.bar_open_ts d.decision_ts
          (microseconds instrument.execution_lag_seconds)
    let order = order_for signal (position d.instrument_id s.portfolio).quantity bar
    ok (
        schedule order bar
          (record s { signals = s.signals ++ signal ∷ []; orders = s.orders ++ order ∷ [] }))

  abbrev submit_unless :
      Bool → SimulatedDecision → TargetPositionIntent → Simulation → Result BacktestError Simulation
  submit_unless true d intent s = ok s
  submit_unless false d intent s = submit d intent s

  -- One pass of the loop over the events of an instant.
  unfoldable pub process_event : DecisionEvent → Simulation → Result BacktestError Simulation
  unfolding submit decide
  process_event e s = do
    selector ← selector_for e.instrument_id signal_selectors
    let d = decision_for e selector s
    let intent = decide (view_for d s)
    submit_unless (eq intent.target_quantity (position e.instrument_id s.portfolio).quantity) d
        intent (record s { decisions = s.decisions ++ d ∷ [] })

  unfoldable pub process_events : List DecisionEvent → Simulation → Result BacktestError Simulation
  unfolding process_event
  process_events [] s = ok s
  process_events (e ∷ es) s = do s' ← process_event e s; process_events es s'

  -- The body of the `while` loop.
  unfoldable pub iterate : List DecisionEvent → ℕ → Simulation → Result BacktestError Simulation
  unfolding execute_pending process_events keep
  iterate events ts s = do
    s' ← execute_pending request.transaction_cost_model ts s
    s'' ← process_events (keep (falls_at ts) events) s'
    ok (advance s'')

  -- `while index < len(all_times)`, on fuel; `none` means that the fuel ran out.
  unfoldable pub run_loop :
      ℕ → List DecisionEvent → Simulation → Option (Result BacktestError Simulation)
  unfolding iterate
  run_loop zero events s = none
  run_loop (suc fuel) events s = elim (get_elem? s.all_times s.index) [
    | none ↦ some (ok s)
    | some ts ↦ proceed (run_loop fuel events) (iterate events ts s)
  ]

abbrev or_execution : Option Selectors → Selectors → Selectors
or_execution none execution = execution
or_execution (some []) execution = execution
or_execution (some (v ∷ vs)) execution = v ∷ vs

abbrev positions_of : LongOnlyPortfolio → List RunInstrumentSpec → List (ℕ × PositionState)
positions_of p [] = []
positions_of p (x ∷ xs) = (x.instrument_id, position x.instrument_id p) ∷ positions_of p xs

abbrev market_value_of : SimulatedValuation → Decimal
market_value_of v = v.market_value

-- The end of `simulate`: the valuations and the result.
unfoldable pub conclude :
    BacktestRunRequest → Selectors → Simulation → Result BacktestError SimulationResult
conclude request valuation_data s = do
  valuations ← final_valuations request.event_to s.portfolio valuation_data request.instruments
  ok (record {
    decisions = s.decisions;
    signals = s.signals;
    orders = s.orders;
    fills = s.fills;
    cash = s.portfolio.cash;
    positions = positions_of s.portfolio request.instruments;
    valuations = valuations;
    equity_base = add s.portfolio.cash (sum_from (dec 0) (map market_value_of valuations));
  })

-- The start of `simulate`: the checks of the bindings, the portfolio and the decision events.
unfoldable pub prepare :
    Run → Selectors → Result BacktestError (LongOnlyPortfolio × List DecisionEvent)
prepare run valuation_data = do
  let request = run.request
  raise_if
      (not (
        covers request.instruments run.signal_selectors
        && covers request.instruments run.execution_selectors))
      missing_run_data
  raise_if (not (covers request.instruments valuation_data)) missing_valuation_data
  portfolio ← open_portfolio request.initial_capital
  events ← decision_events request run.signal_selectors
  ok (portfolio, events)

abbrev finish :
    BacktestRunRequest
    → Selectors
    → Option (Result BacktestError Simulation)
    → Option (Result BacktestError SimulationResult)
finish request valuation_data none = none
finish request valuation_data (some (err e)) = some (err e)
finish request valuation_data (some (ok s)) = some (conclude request valuation_data s)

abbrev simulate_from :
    Run
    → Selectors
    → Result BacktestError (LongOnlyPortfolio × List DecisionEvent)
    → Option (Result BacktestError SimulationResult)
simulate_from run valuation_data (err e) = some (err e)
simulate_from run valuation_data (ok (portfolio, events)) =
    finish run.request valuation_data
      (run_loop run (rounds_for events run.execution_selectors) events (start portfolio events))

-- `ReferenceBacktestSimulator.simulate`; `none` if the rounds did not suffice, which never happens.
unfoldable pub simulate : Run → Option Selectors → Option (Result BacktestError SimulationResult)
simulate run valuation_selectors =
    let valuation_data = or_execution valuation_selectors run.execution_selectors in
    simulate_from run valuation_data (prepare run valuation_data)
