-- ===== src/Backtest/Engine/Fills.antt =====
-- The orders that are due at an instant of `simulate` in backtest/engine.py, and the dict `pending`.
use bisfin.Base.{ℕ, Bool, Option, none, some, List, [], ◌∷◌, ◌++◌, ◌==◌, leb, if◌then◌else◌}
use bisfin.Base.Sort.{sorted}
use bisfin.Base.Result.{Result, ok, err, ◌>>=◌}
use bisfin.Backtest.Errors.{BacktestError}
use bisfin.Backtest.Contracts.{DecisionBar, TransactionCostModelSpec}
use bisfin.Backtest.Accounting.{
  PricedFill, PositionState, LongOnlyPortfolio, price_fill, apply_fill,
}
use bisfin.Backtest.Engine.Records.{SimulatedOrder, SimulatedFill, Simulation}
use bisfin.Backtest.Engine.Keys.{leb_text}
use bisfin.Backtest.Engine.Events.{elem}

abbrev pub Ledger : Type 0
Ledger = LongOnlyPortfolio × List SimulatedFill

abbrev pub fill_of : SimulatedOrder → DecisionBar → PricedFill → SimulatedFill
fill_of order bar f = record {
  order = order;
  fill_ts = bar.effective_available_at;
  reference_bar = bar;
  reference_price = bar.close_price;
  economics = f;
}

-- `try: portfolio.apply_fill(...) except BacktestValidationError: continue`.
abbrev pub book :
    SimulatedOrder
    → DecisionBar
    → PricedFill
    → List SimulatedFill
    → Result BacktestError PositionState × LongOnlyPortfolio
    → Ledger
book order bar f fills (err e, p) = (p, fills)
book order bar f fills (ok s, p) = (p, fills ++ fill_of order bar f ∷ [])

-- One order of the instant. An error of `price_fill` ends the simulation.
unfoldable pub execute_at :
    TransactionCostModelSpec
    → SimulatedOrder
    → Option DecisionBar
    → Ledger
    → Result BacktestError Ledger
unfolding price_fill apply_fill
execute_at costs order none l = ok l
execute_at costs order (some bar) l = do
  f ← price_fill order.side order.quantity bar.close_price costs
  ok (book order bar f l.1 (apply_fill order.signal.instrument_id f l.0))

unfoldable pub execute_orders :
    TransactionCostModelSpec → List SimulatedOrder → Ledger → Result BacktestError Ledger
unfolding execute_at
execute_orders costs [] l = ok l
execute_orders costs (o ∷ os) l = do
  l' ← execute_at costs o o.execution_bar l
  execute_orders costs os l'

abbrev pub le_semantic : SimulatedOrder → SimulatedOrder → Bool
le_semantic x y = leb_text x.semantic_key y.semantic_key

-- `pending.pop(event_ts, [])`: the orders of the instant, and the others.
unfoldable pub pending_at : ℕ → List (ℕ × List SimulatedOrder) → List SimulatedOrder
pending_at ts [] = []
pending_at ts ((k, os) ∷ ps) = if k == ts then os else pending_at ts ps

unfoldable pub without_pending : ℕ → List (ℕ × List SimulatedOrder) → List (ℕ × List SimulatedOrder)
without_pending ts [] = []
without_pending ts ((k, os) ∷ ps) = if k == ts then ps else (k, os) ∷ without_pending ts ps

-- `pending.setdefault(ts, []).append(order)`.
unfoldable pub add_pending :
    ℕ → SimulatedOrder → List (ℕ × List SimulatedOrder) → List (ℕ × List SimulatedOrder)
add_pending ts o [] = (ts, o ∷ []) ∷ []
add_pending ts o ((k, os) ∷ ps) =
    if k == ts then (k, os ++ o ∷ []) ∷ ps else (k, os) ∷ add_pending ts o ps

-- `if ts not in all_times: all_times.append(ts); all_times.sort()`.
unfoldable pub add_time : ℕ → List ℕ → List ℕ
unfolding sorted
add_time ts times = if elem ts times then times else sorted leb (times ++ ts ∷ [])

-- The fills of one instant.
unfoldable pub execute_pending :
    TransactionCostModelSpec → ℕ → Simulation → Result BacktestError Simulation
unfolding execute_orders pending_at without_pending sorted
execute_pending costs ts s = do
  l ← execute_orders costs (sorted le_semantic (pending_at ts s.pending)) (s.portfolio, s.fills)
  ok (record s { portfolio = l.0; fills = l.1; pending = without_pending ts s.pending })
