-- ===== src/Backtest/Engine/Outcome.antt =====
-- The parts of a simulation that ended without an error.
use bisfin.Base.{
  arith, ◌≡◌, refl, sym, ap, subst, ◌∙◌, Option, none, some, List, map, not, ◌&&◌, Bool, true,
  false,
}
use bisfin.Base.Result.{Result, ok, err, raise_if, ◌>>=◌, ◌>>◌, >>=-inv, ok_injective}
use bisfin.Decimal.{dec, add, sum_from}
use bisfin.Backtest.Errors.{BacktestError, missing_run_data, missing_valuation_data}
use bisfin.Backtest.Accounting.{LongOnlyPortfolio, open_portfolio}
use bisfin.Backtest.Engine.{
  Run, Selectors, Simulation, SimulationResult, DecisionEvent, decision_events, final_valuations,
  start, conclude, prepare, positions_of, finish, simulate, simulate_from, or_execution, rounds_for,
  run_loop, covers, market_value_of,
}

-- What `simulate` went through, and where its result comes from.
pub record IsEnded (run : Run) (valuation_data : Selectors) (r : SimulationResult) : Type 0 where
  pub portfolio : LongOnlyPortfolio
  pub opened : open_portfolio run.request.initial_capital ≡ ok portfolio
  pub events : List DecisionEvent
  pub events_lem : decision_events run.request run.signal_selectors ≡ ok events
  pub last : Simulation
  pub looped :
      run_loop run (rounds_for events run.execution_selectors) events (start portfolio events)
      ≡ some (ok last)
  pub decisions_lem : r.decisions ≡ last.decisions
  pub orders_lem : r.orders ≡ last.orders
  pub fills_lem : r.fills ≡ last.fills
  pub cash_lem : r.cash ≡ last.portfolio.cash
  pub positions_lem : r.positions ≡ positions_of last.portfolio run.request.instruments
  pub valuations_lem :
      final_valuations run.request.event_to last.portfolio valuation_data run.request.instruments
      ≡ ok r.valuations
  pub equity_lem :
      r.equity_base ≡ add last.portfolio.cash (sum_from (dec 0) (map market_value_of r.valuations))

guard_eq-ok :
    {A : Type 0} (c : Bool) (e : BacktestError) (m : Result BacktestError A) {a : A}
    → (raise_if c e >> m) ≡ ok a
    → m ≡ ok a
guard_eq-ok true e m h = cc
guard_eq-ok false e m h = h

prepared :
    (run : Run) (ss : Selectors) (p : LongOnlyPortfolio) (es : List DecisionEvent)
    → prepare run ss ≡ ok (p, es)
    → (open_portfolio run.request.initial_capital ≡ ok p)
      × (decision_events run.request run.signal_selectors ≡ ok es)
unfolding prepare
prepared run ss p es h =
    let request = run.request in
    let h' =
      guard_eq-ok
        (not (
          covers request.instruments run.signal_selectors
          && covers request.instruments run.execution_selectors))
        missing_run_data
        (do
          raise_if (not (covers request.instruments ss)) missing_valuation_data
          portfolio ← open_portfolio request.initial_capital
          events ← decision_events request run.signal_selectors
          ok (portfolio, events))
        h in
    let h'' =
      guard_eq-ok (not (covers request.instruments ss)) missing_valuation_data
        (do
          portfolio ← open_portfolio request.initial_capital
          events ← decision_events request run.signal_selectors
          ok (portfolio, events))
        h' in
    let (q, opened, k) =
      >>=-inv (open_portfolio request.initial_capital)
        (λ portfolio. do
          events ← decision_events request run.signal_selectors
          ok (portfolio, events))
        h'' in
    let (fs, found, k') =
      >>=-inv (decision_events request run.signal_selectors) (λ events. ok (q, events)) k in
    let same = ok_injective k' in
    (
      opened ∙ ap (λ (x : LongOnlyPortfolio × List DecisionEvent). ok x.0) same,
      found ∙ ap (λ (x : LongOnlyPortfolio × List DecisionEvent). ok x.1) same,
    )

module _ (run : Run) (ss : Selectors) (r : SimulationResult) where
  concluded :
      (p : LongOnlyPortfolio) (es : List DecisionEvent) (s : Simulation)
      → prepare run ss ≡ ok (p, es)
      → run_loop run (rounds_for es run.execution_selectors) es (start p es) ≡ some (ok s)
      → conclude run.request ss s ≡ ok r
      → IsEnded run ss r
  unfolding conclude
  concluded p es s h k c =
      let (vs, valued, c') =
        >>=-inv (final_valuations run.request.event_to s.portfolio ss run.request.instruments)
          (λ valuations. ok (record {
            decisions = s.decisions;
            signals = s.signals;
            orders = s.orders;
            fills = s.fills;
            cash = s.portfolio.cash;
            positions = positions_of s.portfolio run.request.instruments;
            valuations = valuations;
            equity_base = add s.portfolio.cash (sum_from (dec 0) (map market_value_of valuations));
          }))
          c in
      let same = sym (ok_injective c') in
      let begun = prepared run ss p es h in
      record {
        portfolio = p;
        opened = begun.0;
        events = es;
        events_lem = begun.1;
        last = s;
        looped = k;
        decisions_lem = ap (λ (x : SimulationResult). x.decisions) same;
        orders_lem = ap (λ (x : SimulationResult). x.orders) same;
        fills_lem = ap (λ (x : SimulationResult). x.fills) same;
        cash_lem = ap (λ (x : SimulationResult). x.cash) same;
        positions_lem = ap (λ (x : SimulationResult). x.positions) same;
        valuations_lem = valued ∙ ap (λ (x : SimulationResult). ok x.valuations) (sym same);
        equity_lem =
            subst
              (λ (x : SimulationResult).
                x.equity_base
                ≡ add s.portfolio.cash (sum_from (dec 0) (map market_value_of x.valuations)))
              (ok_injective c') refl;
      }

  finished :
      (p : LongOnlyPortfolio) (es : List DecisionEvent)
      (o : Option (Result BacktestError Simulation))
      → prepare run ss ≡ ok (p, es)
      → run_loop run (rounds_for es run.execution_selectors) es (start p es) ≡ o
      → finish run.request ss o ≡ some (ok r)
      → IsEnded run ss r
  finished p es none h k f = absurd (ground arith)
  finished p es (some (err e)) h k f = absurd (ground arith)
  finished p es (some (ok s)) h k f = concluded p es s h k (ground arith)

  from_prepared :
      (o : Result BacktestError (LongOnlyPortfolio × List DecisionEvent))
      → prepare run ss ≡ o
      → simulate_from run ss o ≡ some (ok r)
      → IsEnded run ss r
  from_prepared (err e) h f = absurd (ground arith)
  from_prepared (ok (p, es)) h f =
      finished p es (run_loop run (rounds_for es run.execution_selectors) es (start p es)) h refl f

pub simulate-IsEnded :
    (run : Run) (v : Option Selectors) (r : SimulationResult)
    → simulate run v ≡ some (ok r)
    → IsEnded run (or_execution v run.execution_selectors) r
unfolding simulate
simulate-IsEnded run v r h =
    let ss = or_execution v run.execution_selectors in
    from_prepared run ss r (prepare run ss) refl h
