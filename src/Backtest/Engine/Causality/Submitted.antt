-- ===== src/Backtest/Engine/Causality/Submitted.antt =====
-- The orders that `simulate` in backtest/engine.py submits.
use bisfin.Backtest.Selector.Execution.{next_execution_bar-IsFirst}
use bisfin.Base.Result.{ok, ok_injective}
use bisfin.Backtest.Selector.{microseconds, select_rows, next_execution_bar}
use bisfin.Backtest.Engine.Steps.{IsProcessed, IsSubmitted}
use bisfin.Backtest.Engine.Decisions.{AreBuilt, selector_for-built}
use bisfin.Backtest.Contracts.{DecisionBar, RunInstrumentSpec}
use bisfin.Backtest.Engine.{
  Run, DecisionEvent, Simulation, SimulatedOrder, instrument_for, rejection,
}
use bisfin.Base.{List, In, ◌≡◌, some, subst, ◌<◌, sym, ◌+◌, refl, ◌≤◌, ◌∙◌}

-- The execution bar of an order opens after the bar of its signal, and becomes available no earlier
-- than the lag after the submission.
pub record IsCausal (run : Run) (o : SimulatedOrder) : Type 0 where
  pub later :
      (b : DecisionBar)
      → o.execution_bar ≡ some b
      → o.signal.trigger_bar.bar_open_ts < b.bar_open_ts
  pub lagged :
      (b : DecisionBar) (x : RunInstrumentSpec)
      → o.execution_bar ≡ some b
      → instrument_for o.signal.instrument_id run.request.instruments ≡ ok x
      → o.submitted_at + microseconds x.execution_lag_seconds ≤ b.effective_available_at
  pub rejected : o.rejected_reason ≡ rejection o.execution_bar

module _ (run : Run) where
  pub submitted-IsCausal :
      (e : DecisionEvent) (s t : Simulation) (p : IsProcessed run e s t)
      (q : IsSubmitted run p.decision s t)
      → AreBuilt run.execution_selectors
      → IsCausal run q.order
  submitted-IsCausal e s t p q built =
      let (rows, b) =
        selector_for-built p.decision.instrument_id run.execution_selectors q.selector built
          q.selector_found in
      rw (q.order_lem, q.signal_lem)
        (record {
          later = λ bar found. (first rows b bar (q.bar_lem ∙ found)).1;
          lagged = λ bar x found listed.
              lag_of rows b bar x (q.bar_lem ∙ found)
                (ok_injective (sym q.instrument_found ∙ listed));
          rejected = refl;
        })
    where
      first :
          (rows : List DecisionBar)
          → select_rows rows ≡ ok q.selector
          → (bar : DecisionBar)
          → next_execution_bar q.selector p.decision.trigger_bar.bar_open_ts p.decision.decision_ts
              (microseconds q.instrument.execution_lag_seconds)
            ≡ some bar
          → In bar rows
            × (p.decision.trigger_bar.bar_open_ts < bar.bar_open_ts)
            × (p.decision.decision_ts + microseconds q.instrument.execution_lag_seconds
                ≤ bar.effective_available_at)
      first rows b bar found =
          let x =
            next_execution_bar-IsFirst rows q.selector p.decision.trigger_bar.bar_open_ts
              p.decision.decision_ts (microseconds q.instrument.execution_lag_seconds) bar b
              found in
          (x.0, x.1, x.2)

      lag_of :
          (rows : List DecisionBar)
          → select_rows rows ≡ ok q.selector
          → (bar : DecisionBar) (x : RunInstrumentSpec)
          → next_execution_bar q.selector p.decision.trigger_bar.bar_open_ts p.decision.decision_ts
              (microseconds q.instrument.execution_lag_seconds)
            ≡ some bar
          → q.instrument ≡ x
          → p.decision.decision_ts + microseconds x.execution_lag_seconds
            ≤ bar.effective_available_at
      lag_of rows b bar x found same =
          subst
            (λ (y : RunInstrumentSpec).
              p.decision.decision_ts + microseconds y.execution_lag_seconds
              ≤ bar.effective_available_at)
            same (first rows b bar found).2
