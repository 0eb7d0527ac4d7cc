-- ===== src/Backtest/Engine/Causality/Backed.antt =====
-- The fills of backtest/engine.py and the orders they belong to.
use bisfin.Backtest.Errors.{BacktestError}
use bisfin.Backtest.Accounting.{price_fill, PricedFill, PositionState, LongOnlyPortfolio}
use bisfin.Base.Result.{ok, Result, err}
use bisfin.Backtest.Contracts.{DecisionBar}
use bisfin.Backtest.Engine.{Run, SimulatedOrder, SimulatedFill, Ledger, book, fill_of}
use bisfin.Base.{List, All, ◌++◌, In, ◌≡◌, some, ◌∷◌, [], All-append, All-imp, In-append_left, refl}

-- A fill belongs to an order of the run, and takes its instant and its price from that order's bar.
pub record IsBacked (run : Run) (os : List SimulatedOrder) (f : SimulatedFill) : Type 0 where
  pub placed : In f.order os
  pub bar_lem : f.order.execution_bar ≡ some f.reference_bar
  pub ts_lem : f.fill_ts ≡ f.reference_bar.effective_available_at
  pub priced_lem :
      price_fill f.order.side f.order.quantity f.reference_bar.close_price
        run.request.transaction_cost_model
      ≡ ok f.economics

module _ (run : Run) where
  pub book-IsBacked :
      (os : List SimulatedOrder) (o : SimulatedOrder) (bar : DecisionBar) (f : PricedFill)
      (l : Ledger) (r : Result BacktestError PositionState × LongOnlyPortfolio)
      → In o os
      → o.execution_bar ≡ some bar
      → price_fill o.side o.quantity bar.close_price run.request.transaction_cost_model ≡ ok f
      → All (IsBacked run os) l.1
      → All (IsBacked run os) (book o bar f l.1 r).1
  book-IsBacked os o bar f l (err e, p) i q priced h = h
  book-IsBacked os o bar f l (ok x, p) i q priced h =
      All-append (IsBacked run os) l.1 (fill_of o bar f ∷ []) h
        (record { placed = i; bar_lem = q; ts_lem = refl; priced_lem = priced }, tt)

  pub IsBacked-by_more :
      (os : List SimulatedOrder) (o : SimulatedOrder) (fs : List SimulatedFill)
      → All (IsBacked run os) fs
      → All (IsBacked run (os ++ o ∷ [])) fs
  IsBacked-by_more os o fs h =
      All-imp (IsBacked run os) (IsBacked run (os ++ o ∷ [])) fs
        (λ f b. record {
          placed = In-append_left f.order os (o ∷ []) b.placed;
          bar_lem = b.bar_lem;
          ts_lem = b.ts_lem;
          priced_lem = b.priced_lem;
        })
        h
