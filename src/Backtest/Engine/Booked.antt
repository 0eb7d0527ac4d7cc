-- ===== src/Backtest/Engine/Booked.antt =====
-- What the booking of one order keeps, the fills of an instant of backtest/engine.py keep.
use bisfin.Base.{
  ℕ, ◌≡◌, refl, Option, none, some, List, [], ◌∷◌, All, All-of_In, subst, ◌⊎◌, inl, inr,
}
use bisfin.Base.Sort.{sorted, All-sorted}
use bisfin.Base.Result.{ok, >>=-inv, ok_injective}
use bisfin.Backtest.Contracts.{DecisionBar, TransactionCostModelSpec}
use bisfin.Backtest.Accounting.{PricedFill, price_fill, apply_fill}
use bisfin.Backtest.Engine.{
  Simulation, SimulatedOrder, Ledger, book, execute_at, execute_orders, execute_pending, pending_at,
  without_pending, le_semantic, SimulatedSignal, DecisionEvent, Run, Selectors, SimulationResult,
  rounds_for, start,
}
use bisfin.Backtest.Engine.Outcome.{IsEnded}
use bisfin.Backtest.Engine.Steps.{IsKept, IsProcessed, IsSubmitted, decided, ordered, loop_keeps}

module _ (c : TransactionCostModelSpec) (R : SimulatedOrder → Type 0) (Q : Ledger → Type 0)
    (kept : (o : SimulatedOrder) (bar : DecisionBar) (f : PricedFill) (l : Ledger)
      → R o
      → o.execution_bar ≡ some bar
      → price_fill o.side o.quantity bar.close_price c ≡ ok f
      → Q l
      → Q (book o bar f l.1 (apply_fill o.signal.instrument_id f l.0))) where
  execute_at_keeps :
      (o : SimulatedOrder) (bar : Option DecisionBar) (l m : Ledger)
      → R o
      → o.execution_bar ≡ bar
      → Q l
      → execute_at c o bar l ≡ ok m
      → Q m
  unfolding execute_at
  execute_at_keeps o none l m r q h e = subst Q (ok_injective e) h
  execute_at_keeps o (some bar) l m r q h e =
      let (f, priced, e') =
        >>=-inv (price_fill o.side o.quantity bar.close_price c)
          (λ f. ok (book o bar f l.1 (apply_fill o.signal.instrument_id f l.0))) e in
      subst Q (ok_injective e') (kept o bar f l r q priced h)

  execute_orders_keep :
      (os : List SimulatedOrder) (l m : Ledger)
      → All R os
      → Q l
      → execute_orders c os l ≡ ok m
      → Q m
  unfolding execute_orders
  execute_orders_keep [] l m r h e = subst Q (ok_injective e) h
  execute_orders_keep (o ∷ os) l m r h e =
      let (n, one, rest) =
        >>=-inv (execute_at c o o.execution_bar l) (λ n. execute_orders c os n) e in
      execute_orders_keep os n m r.1 (execute_at_keeps o o.execution_bar l n r.0 refl h one) rest

  -- The orders and signals stay; the orders of the instant are no longer pending.
  pub execute_pending_keeps :
      (ts : ℕ) (s t : Simulation)
      → All R (pending_at ts s.pending)
      → Q (s.portfolio, s.fills)
      → execute_pending c ts s ≡ ok t
      → Q (t.portfolio, t.fills)
        × (t.orders ≡ s.orders)
        × (t.pending ≡ without_pending ts s.pending)
  unfolding execute_pending
  execute_pending_keeps ts s t r h e =
      let qs = sorted le_semantic (pending_at ts s.pending) in
      let (l, done, e') =
        >>=-inv (execute_orders c qs (s.portfolio, s.fills))
          (λ l.
            ok (record s { portfolio = l.0; fills = l.1; pending = without_pending ts s.pending }))
          e in
      subst
        (λ (x : Simulation).
          Q (x.portfolio, x.fills)
          × (x.orders ≡ s.orders)
          × (x.pending ≡ without_pending ts s.pending))
        (ok_injective e')
        (
          execute_orders_keep qs (s.portfolio, s.fills) l
              (All-sorted le_semantic R (pending_at ts s.pending) r) h done,
          refl,
          refl,
        )

ledger-ordered :
    (g : SimulatedSignal) (o : SimulatedOrder) (bar : Option DecisionBar) (s : Simulation)
    → ((ordered g o bar s).portfolio ≡ s.portfolio) × ((ordered g o bar s).fills ≡ s.fills)
ledger-ordered g o none s = (refl, refl)
ledger-ordered g o (some bar) s = (refl, refl)

-- An event leaves the portfolio and the fills alone.
pub ledger-processed :
    (run : Run) (e : DecisionEvent) (s t : Simulation)
    → IsProcessed run e s t
    → (t.portfolio ≡ s.portfolio) × (t.fills ≡ s.fills)
ledger-processed run e s t p = by p.outcome
  where
    by :
        (t ≡ decided p.decision s) ⊎ IsSubmitted run p.decision s t
        → (t.portfolio ≡ s.portfolio) × (t.fills ≡ s.fills)
    by (inl q) = rw q (refl, refl)
    by (inr q) = rw q.after (ledger-ordered q.signal q.order q.bar (decided p.decision s))

module _ (run : Run) (Q : Ledger → Type 0)
    (kept : (o : SimulatedOrder) (bar : DecisionBar) (f : PricedFill) (l : Ledger)
      → price_fill o.side o.quantity bar.close_price run.request.transaction_cost_model ≡ ok f
      → Q l
      → Q (book o bar f l.1 (apply_fill o.signal.instrument_id f l.0))) where
  ledger-IsKept : IsKept run (λ s. Q (s.portfolio, s.fills))
  ledger-IsKept = record {
    by_fills = λ ts s t h e.
        (execute_pending_keeps run.request.transaction_cost_model (λ o. Unit {0}) Q
          (λ o bar f l r q priced k. kept o bar f l priced k) ts s t
          (All-of_In (λ o. Unit {0}) (pending_at ts s.pending) (λ o i. tt)) h e).0;
    by_event = λ e s t h p.
        let (portfolio_lem, fills_lem) = ledger-processed run e s t p in
        rw (portfolio_lem, fills_lem) h;
    by_index = λ s h. h;
  }

  -- What the booking of one order keeps, holds of the last portfolio and all fills of a simulation.
  pub ledger_ends :
      {v : Selectors} {r : SimulationResult} (e : IsEnded run v r)
      → Q (e.portfolio, [])
      → Q (e.last.portfolio, e.last.fills)
  ledger_ends e opened =
      loop_keeps run (λ s. Q (s.portfolio, s.fills)) ledger-IsKept
        (rounds_for e.events run.execution_selectors) e.events (start e.portfolio e.events) e.last
        opened e.looped
