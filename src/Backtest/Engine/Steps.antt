-- ===== src/Backtest/Engine/Steps.antt =====
-- What one step of the simulator does, for the proofs about its loop.
use bisfin.Base.{
  ℕ, zero, suc, ◌≡◌, refl, ◌⊎◌, inl, inr, Bool, true, false, Option, none, some, List, [], ◌∷◌,
  ◌++◌, arith, Option-cases, keep, subst,
}
use bisfin.Base.Result.{ok, ◌>>=◌, >>=-inv, Result-cases, ok_injective}
use bisfin.Decimal.{eq}
use bisfin.Backtest.Contracts.{RunInstrumentSpec, DecisionBar}
use bisfin.Backtest.Accounting.{position}
use bisfin.Backtest.Selector.{ArtifactBarSelector, next_execution_bar, microseconds}
use bisfin.Backtest.Strategy.{decide}
use bisfin.Backtest.Engine.{
  Run, Simulation, SimulatedDecision, SimulatedSignal, SimulatedOrder, DecisionEvent, selector_for,
  instrument_for, decision_for, view_for, signal_for, order_for, schedule, submit, submit_unless,
  process_event, process_events, execute_pending, iterate, advance, falls_at, run_loop, get_elem?,
}

-- The simulation after a decision that keeps the target.
abbrev pub decided : SimulatedDecision → Simulation → Simulation
decided d s = record s { decisions = s.decisions ++ d ∷ [] }

-- The simulation after a decision that leads to an order.
abbrev pub ordered : SimulatedSignal → SimulatedOrder → Option DecisionBar → Simulation → Simulation
ordered signal order bar s =
    schedule order bar
      (record s { signals = s.signals ++ signal ∷ []; orders = s.orders ++ order ∷ [] })

-- How an order comes about: its parts are those that `submit` computes.
pub record IsSubmitted (run : Run) (d : SimulatedDecision) (s t : Simulation) : Type 0 where
  pub instrument : RunInstrumentSpec
  pub instrument_found : instrument_for d.instrument_id run.request.instruments ≡ ok instrument
  pub selector : ArtifactBarSelector
  pub selector_found : selector_for d.instrument_id run.execution_selectors ≡ ok selector
  pub signal : SimulatedSignal
  pub signal_lem : signal ≡ signal_for d (decide (view_for run d s))
  pub bar : Option DecisionBar
  pub bar_lem :
      next_execution_bar selector d.trigger_bar.bar_open_ts d.decision_ts
        (microseconds instrument.execution_lag_seconds)
      ≡ bar
  pub order : SimulatedOrder
  pub order_lem : order ≡ order_for run signal (position d.instrument_id s.portfolio).quantity bar
  pub after : t ≡ ordered signal order bar (decided d s)

-- What an event does: it records the decision, and may submit an order.
pub record IsProcessed (run : Run) (e : DecisionEvent) (s t : Simulation) : Type 0 where
  pub selector : ArtifactBarSelector
  pub selector_found : selector_for e.instrument_id run.signal_selectors ≡ ok selector
  pub decision : SimulatedDecision
  pub decision_lem : decision ≡ decision_for run e selector s
  pub outcome : (t ≡ decided decision s) ⊎ IsSubmitted run decision s t

module _ (run : Run) where
  submit-IsSubmitted :
      (d : SimulatedDecision) (s t : Simulation)
      → submit run d (decide (view_for run d s)) (decided d s) ≡ ok t
      → IsSubmitted run d s t
  unfolding submit
  submit-IsSubmitted d s t h =
      let (x, found, h') =
        >>=-inv (instrument_for d.instrument_id run.request.instruments)
          (λ instrument. do
            selector ← selector_for d.instrument_id run.execution_selectors
            let signal = signal_for d (decide (view_for run d s))
            let bar =
                next_execution_bar selector d.trigger_bar.bar_open_ts d.decision_ts
                  (microseconds instrument.execution_lag_seconds)
            let order = order_for run signal (position d.instrument_id s.portfolio).quantity bar
            ok (ordered signal order bar (decided d s)))
          h in
      let (y, bound, h'') =
        >>=-inv (selector_for d.instrument_id run.execution_selectors)
          (λ selector. do
            let signal = signal_for d (decide (view_for run d s))
            let bar =
                next_execution_bar selector d.trigger_bar.bar_open_ts d.decision_ts
                  (microseconds x.execution_lag_seconds)
            let order = order_for run signal (position d.instrument_id s.portfolio).quantity bar
            ok (ordered signal order bar (decided d s)))
          h' in
      record {
        instrument = x;
        instrument_found = found;
        selector = y;
        selector_found = bound;
        signal = signal_for d (decide (view_for run d s));
        signal_lem = refl;
        bar =
            next_execution_bar y d.trigger_bar.bar_open_ts d.decision_ts
              (microseconds x.execution_lag_seconds);
        bar_lem = refl;
        order =
            order_for run (signal_for d (decide (view_for run d s)))
              (position d.instrument_id s.portfolio).quantity
              (next_execution_bar y d.trigger_bar.bar_open_ts d.decision_ts
                (microseconds x.execution_lag_seconds));
        order_lem = refl;
        after = cc;
      }

  outcome_of :
      (kept : Bool) (d : SimulatedDecision) (s t : Simulation)
      → submit_unless run kept d (decide (view_for run d s)) (decided d s) ≡ ok t
      → (t ≡ decided d s) ⊎ IsSubmitted run d s t
  outcome_of true d s t h = inl cc
  outcome_of false d s t h = inr (submit-IsSubmitted d s t h)

  pub process_event-IsProcessed :
      (e : DecisionEvent) (s t : Simulation) → process_event run e s ≡ ok t → IsProcessed run e s t
  unfolding process_event
  process_event-IsProcessed e s t h =
      let (x, found, h') =
        >>=-inv (selector_for e.instrument_id run.signal_selectors)
          (λ selector.
            let d = decision_for run e selector s in
            let intent = decide (view_for run d s) in
            submit_unless run
              (eq intent.target_quantity (position e.instrument_id s.portfolio).quantity) d intent
              (decided d s))
          h in
      let d = decision_for run e x s in
      record {
        selector = x;
        selector_found = found;
        decision = d;
        decision_lem = refl;
        outcome =
            outcome_of
              (eq (decide (view_for run d s)).target_quantity
                (position e.instrument_id s.portfolio).quantity)
              d s t h';
      }

-- A property of the simulation that the fills of an instant and each event keep.
pub record IsKept (run : Run) (P : Simulation → Type 0) : Type 0 where
  pub by_fills :
      (ts : ℕ) (s t : Simulation)
      → P s
      → execute_pending run.request.transaction_cost_model ts s ≡ ok t
      → P t
  pub by_event : (e : DecisionEvent) (s t : Simulation) → P s → IsProcessed run e s t → P t
  pub by_index : (s : Simulation) → P s → P (advance s)

module _ (run : Run) (P : Simulation → Type 0) (kept : IsKept run P) where
  events_keep :
      (es : List DecisionEvent) (s t : Simulation) → P s → process_events run es s ≡ ok t → P t
  unfolding process_events
  events_keep [] s t p h = subst P (ok_injective h) p
  events_keep (e ∷ es) s t p h =
      let (u, one, rest) = >>=-inv (process_event run e s) (λ u. process_events run es u) h in
      events_keep es u t (kept.by_event e s u p (process_event-IsProcessed run e s u one)) rest

  -- One iteration of the loop keeps it.
  pub iterate_keeps :
      (events : List DecisionEvent) (ts : ℕ) (s t : Simulation)
      → P s
      → iterate run events ts s ≡ ok t
      → P t
  unfolding iterate
  iterate_keeps events ts s t p h =
      let (u, filled, h') =
        >>=-inv (execute_pending run.request.transaction_cost_model ts s)
          (λ u. do v ← process_events run (keep (falls_at ts) events) u; ok (advance v)) h in
      let (v, processed, h'') =
        >>=-inv (process_events run (keep (falls_at ts) events) u) (λ v. ok (advance v)) h' in
      subst P (ok_injective h'') (
        kept.by_index v
          (events_keep (keep (falls_at ts) events) u v (kept.by_fills ts s u p filled) processed))

  -- So does the whole loop.
  pub loop_keeps :
      (fuel : ℕ) (events : List DecisionEvent) (s t : Simulation)
      → P s
      → run_loop run fuel events s ≡ some (ok t)
      → P t
  unfolding run_loop
  loop_keeps zero events s t p h = absurd (ground arith)
  loop_keeps (suc fuel) events s t p h = elim (Option-cases (get_elem? s.all_times s.index)) [
    | inl e ↦ subst P (ended e) p
    | inr (ts, e) ↦ elim (Result-cases (iterate run events ts s)) [
      | inl (u, done) ↦
          loop_keeps fuel events u t (iterate_keeps events ts s u p done) (ground arith)
      | inr (x, bad) ↦ absurd (ground arith)
    ]
  ]
    where
      ended : get_elem? s.all_times s.index ≡ none → s ≡ t
      ended e = ground arith
