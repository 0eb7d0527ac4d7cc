-- ===== src/Backtest/Engine/Causality.antt =====
-- The orders and the fills of `simulate` in backtest/engine.py.
mod Pending
mod Backed
mod Submitted
pub use Backed.{IsBacked}
pub use Submitted.{IsCausal}
use Pending.{AreIn, pending_at-AreIn, without_pending-AreIn, add_pending-AreIn, more_orders}
use Backed.{book-IsBacked, IsBacked-by_more}
use bisfin.Backtest.Engine.Booked.{execute_pending_keeps}
use bisfin.Backtest.Accounting.{apply_fill}
use Submitted.{submitted-IsCausal}
use bisfin.Backtest.Engine.Outcome.{simulate-IsEnded}
use bisfin.Base.Result.{ok}
use bisfin.Backtest.Engine.Steps.{IsKept, IsProcessed, ordered, IsSubmitted, decided, loop_keeps}
use bisfin.Backtest.Engine.Decisions.{AreBuilt}
use bisfin.Backtest.Contracts.{DecisionBar}
use bisfin.Backtest.Engine.{
  Run, execute_pending, DecisionEvent, SimulatedSignal, Simulation, SimulatedOrder, Selectors,
  SimulationResult, simulate, rounds_for, start,
}
use bisfin.Base.{
  Option, ℕ, All, ◌++◌, In, ◌≡◌, some, ◌∷◌, subst, [], ◌⊎◌, All-append, inl, In-append_right, inr,
  sym, refl, none,
}

module _ (run : Run) where
  -- The orders are causal, the pending ones are among them, and the fills are backed by them.
  record IsConsistent (s : Simulation) : Type 0 where
    causal : All (IsCausal run) s.orders
    pending : All (λ e. AreIn s.orders e.1) s.pending
    backed : All (IsBacked run s.orders) s.fills

  execute_pending-IsConsistent :
      (ts : ℕ) (s t : Simulation)
      → IsConsistent s
      → execute_pending run.request.transaction_cost_model ts s ≡ ok t
      → IsConsistent t
  execute_pending-IsConsistent ts s t h e =
      let (backed, orders_lem, pending_lem) =
        execute_pending_keeps run.request.transaction_cost_model (λ o. In o s.orders)
          (λ l. All (IsBacked run s.orders) l.1)
          (λ o bar f l i q priced k.
            book-IsBacked run s.orders o bar f l (apply_fill o.signal.instrument_id f l.0) i q
              priced k)
          ts s t (unfold AreIn in pending_at-AreIn ts s.orders s.pending h.pending) h.backed e in
      record {
        causal = rw orders_lem h.causal;
        pending =
            rw (orders_lem, pending_lem) (without_pending-AreIn ts s.orders s.pending h.pending);
        backed = rw orders_lem backed;
      }

  ordered-IsConsistent :
      (g : SimulatedSignal) (o : SimulatedOrder) (bar : Option DecisionBar) (s : Simulation)
      → IsCausal run o
      → IsConsistent s
      → IsConsistent (ordered g o bar s)
  ordered-IsConsistent g o bar s c h = by bar
    where
      causal' : All (IsCausal run) (s.orders ++ o ∷ [])
      causal' = All-append (IsCausal run) s.orders (o ∷ []) h.causal (c, tt)

      by : (b : Option DecisionBar) → IsConsistent (ordered g o b s)
      by none = record {
        causal = causal';
        pending = more_orders s.orders o s.pending h.pending;
        backed = IsBacked-by_more run s.orders o s.fills h.backed;
      }
      by (some b) = record {
        causal = causal';
        pending =
            add_pending-AreIn b.effective_available_at o (s.orders ++ o ∷ []) s.pending
              (In-append_right o s.orders (o ∷ []) (inl refl))
              (more_orders s.orders o s.pending h.pending);
        backed = IsBacked-by_more run s.orders o s.fills h.backed;
      }

  IsConsistent-IsKept : AreBuilt run.execution_selectors → IsKept run IsConsistent
  IsConsistent-IsKept built = record {
    by_fills = λ ts s t h e. execute_pending-IsConsistent ts s t h e;
    by_event = λ e s t h p. by e s t p h p.outcome;
    by_index = λ s h. record { causal = h.causal; pending = h.pending; backed = h.backed };
  }
    where
      by :
          (e : DecisionEvent) (s t : Simulation) (p : IsProcessed run e s t)
          → IsConsistent s
          → (t ≡ decided p.decision s) ⊎ IsSubmitted run p.decision s t
          → IsConsistent t
      by e s t p h (inl q) =
          subst IsConsistent (sym q)
            (record { causal = h.causal; pending = h.pending; backed = h.backed })
      by e s t p h (inr q) = subst IsConsistent (sym q.after) (
          ordered-IsConsistent q.signal q.order q.bar (decided p.decision s)
            (submitted-IsCausal run e s t p q built)
            (record { causal = h.causal; pending = h.pending; backed = h.backed }))

  simulate-IsConsistent :
      (v : Option Selectors) (r : SimulationResult)
      → AreBuilt run.execution_selectors
      → simulate run v ≡ some (ok r)
      → All (IsCausal run) r.orders × All (IsBacked run r.orders) r.fills
  simulate-IsConsistent v r built h =
      let e = simulate-IsEnded run v r h in
      let c =
        loop_keeps run IsConsistent (IsConsistent-IsKept built)
          (rounds_for e.events run.execution_selectors) e.events (start e.portfolio e.events) e.last
          (record { causal = tt; pending = tt; backed = tt }) e.looped in
      rw (e.orders_lem, e.fills_lem) (c.causal, c.backed)

-- If the execution selectors were built from rows, each order of a simulation that returns a result
-- is causal: its execution bar opens after the bar of its signal and becomes available no earlier
-- than the lag after its submission, and it is rejected exactly if it has none.
pub simulate-IsCausal :
    (run : Run) (v : Option Selectors) (r : SimulationResult)
    → AreBuilt run.execution_selectors
    → simulate run v ≡ some (ok r)
    → All (IsCausal run) r.orders
simulate-IsCausal run v r built h = (simulate-IsConsistent run v r built h).0

-- If the execution selectors were built from rows, each fill of a simulation that returns a result
-- belongs to an order of the result, at the instant of that order's execution bar, and is priced at
-- the close of that bar.
pub simulate-IsBacked :
    (run : Run) (v : Option Selectors) (r : SimulationResult)
    → AreBuilt run.execution_selectors
    → simulate run v ≡ some (ok r)
    → All (IsBacked run r.orders) r.fills
simulate-IsBacked run v r built h = (simulate-IsConsistent run v r built h).1
