-- ===== src/Backtest/Engine/Rounds.antt =====
-- The `while` loop of `simulate` in backtest/engine.py, and the rounds that it takes.
mod Times
use bisfin.Backtest.Errors.{BacktestError}
use bisfin.Backtest.Accounting.{LongOnlyPortfolio}
use bisfin.Base.{
  ℕ, suc, ◌+◌, ◌≡◌, refl, ◌≤◌, ◌<◌, ◌⊎◌, inl, inr, true, false, Option, none, some, List, [], ◌∷◌,
  In, arith, length, sym, ap, ◌∙◌, Option-cases, zero, keep,
}
use bisfin.Base.Sort.{sorted}
use bisfin.Base.Result.{ok, >>=-inv, ok_injective, Result, ◌>>=◌, err, Result-cases}
use bisfin.Backtest.Contracts.{DecisionBar}
use bisfin.Backtest.Selector.{microseconds}
use bisfin.Backtest.Selector.Execution.{next_execution_bar-InGroups}
use bisfin.Backtest.Engine.{
  Run, Simulation, SimulatedOrder, SimulatedSignal, DecisionEvent, Selectors, execute_orders,
  execute_pending, visibilities, pending_at, without_pending, le_semantic, get_elem?, iterate,
  simulate, process_events, run_loop, process_event, rounds_for, SimulationResult, finish,
  simulate_from, start, or_execution, event_times, prepare, conclude, falls_at, advance,
}
use bisfin.Backtest.Engine.Rounds.Times.{
  missing, capacity, capacity-add_time, missing-le-length, In-visibilities,
}
use bisfin.Backtest.Engine.Steps.{
  IsProcessed, IsSubmitted, decided, ordered, IsKept, process_event-IsProcessed, iterate_keeps,
}

-- The instants stay within a bound of the run's own.
abbrev IsWithin : Run → ℕ → Simulation → Type 0
IsWithin run bound s = capacity (visibilities run.execution_selectors) s.all_times ≤ bound

times-executed :
    (run : Run) (ts : ℕ) (s t : Simulation)
    → execute_pending run.request.transaction_cost_model ts s ≡ ok t
    → (t.all_times ≡ s.all_times) × (t.index ≡ s.index)
unfolding execute_pending
times-executed run ts s t e =
    let (l, done, e') =
      >>=-inv
        (execute_orders run.request.transaction_cost_model
          (sorted le_semantic (pending_at ts s.pending)) (s.portfolio, s.fills))
        (λ l.
          ok (record s { portfolio = l.0; fills = l.1; pending = without_pending ts s.pending }))
        e in
    (
      ap (λ (x : Simulation). x.all_times) (sym (ok_injective e')),
      ap (λ (x : Simulation). x.index) (sym (ok_injective e')),
    )

capacity-ordered :
    (us : List ℕ) (g : SimulatedSignal) (o : SimulatedOrder) (bar : Option DecisionBar)
    (s : Simulation)
    → ((b : DecisionBar) → bar ≡ some b → In b.effective_available_at us)
    → capacity us (ordered g o bar s).all_times ≤ capacity us s.all_times
capacity-ordered us g o none s h = omega arith
capacity-ordered us g o (some b) s h =
    capacity-add_time us b.effective_available_at s.all_times (h b refl)

capacity-processed :
    (run : Run) (e : DecisionEvent) (s t : Simulation)
    → IsProcessed run e s t
    → capacity (visibilities run.execution_selectors) t.all_times
      ≤ capacity (visibilities run.execution_selectors) s.all_times
capacity-processed run e s t p = by p.outcome
  where
    us : List ℕ
    us = visibilities run.execution_selectors

    by :
        (t ≡ decided p.decision s) ⊎ IsSubmitted run p.decision s t
        → capacity (visibilities run.execution_selectors) t.all_times
          ≤ capacity (visibilities run.execution_selectors) s.all_times
    by (inl q) = rw q (omega arith)
    by (inr q) = rw q.after (
        capacity-ordered (visibilities run.execution_selectors) q.signal q.order q.bar
          (decided p.decision s)
          (λ b found.
            In-visibilities p.decision.instrument_id run.execution_selectors q.selector b
              q.selector_found
              (next_execution_bar-InGroups q.selector p.decision.trigger_bar.bar_open_ts
                p.decision.decision_ts (microseconds q.instrument.execution_lag_seconds) b
                (q.bar_lem ∙ found))))

index-processed :
    (run : Run) (e : DecisionEvent) (s t : Simulation) → IsProcessed run e s t → t.index ≡ s.index
index-processed run e s t p = by p.outcome
  where
    kept :
        (g : SimulatedSignal) (o : SimulatedOrder) (bar : Option DecisionBar)
        → (ordered g o bar (decided p.decision s)).index ≡ s.index
    kept g o none = refl
    kept g o (some b) = refl

    by : (t ≡ decided p.decision s) ⊎ IsSubmitted run p.decision s t → t.index ≡ s.index
    by (inl q) = rw q refl
    by (inr q) = rw q.after (kept q.signal q.order q.bar)

IsWithin-IsKept : (run : Run) (bound : ℕ) → IsKept run (IsWithin run bound)
IsWithin-IsKept run bound = record {
  by_fills = λ ts s t h e. rw ((times-executed run ts s t e).0) h;
  by_event = λ e s t h p. omega (arith, h, capacity-processed run e s t p);
  by_index = λ s h. h;
}

module _ (run : Run) where
  index-events :
      (es : List DecisionEvent) (s t : Simulation)
      → process_events run es s ≡ ok t
      → t.index ≡ s.index
  unfolding process_events
  index-events [] s t h = ap (λ (x : Simulation). x.index) (sym (ok_injective h))
  index-events (e ∷ es) s t h =
      let (u, one, rest) = >>=-inv (process_event run e s) (λ u. process_events run es u) h in
      index-events es u t rest ∙ index-processed run e s u (process_event-IsProcessed run e s u one)

  index-iterate :
      (events : List DecisionEvent) (ts : ℕ) (s t : Simulation)
      → iterate run events ts s ≡ ok t
      → t.index ≡ s.index + 1
  unfolding iterate
  index-iterate events ts s t h =
      let (u, filled, h') =
        >>=-inv (execute_pending run.request.transaction_cost_model ts s)
          (λ u. do v ← process_events run (keep (falls_at ts) events) u; ok (advance v)) h in
      let (v, processed, h'') =
        >>=-inv (process_events run (keep (falls_at ts) events) u) (λ v. ok (advance v)) h' in
      let a = ap (λ (x : Simulation). x.index) (sym (ok_injective h'')) in
      let b = index-events (keep (falls_at ts) events) u v processed in
      let c = (times-executed run ts s u filled).1 in omega arith

  get_elem?-lt-length : (ts : List ℕ) (i t : ℕ) → get_elem? ts i ≡ some t → i < length ts
  unfolding get_elem?
  get_elem?-lt-length [] i t e = absurd (ground arith)
  get_elem?-lt-length (x ∷ ts) zero t e = omega arith
  get_elem?-lt-length (x ∷ ts) (suc i) t e = omega (arith, get_elem?-lt-length ts i t e)

  loop_total :
      (fuel bound : ℕ) (events : List DecisionEvent) (s : Simulation)
      → IsWithin run bound s
      → s.index ≤ bound
      → bound < s.index + fuel
      → (r : Result BacktestError Simulation) × (run_loop run fuel events s ≡ some r)
  unfolding run_loop
  loop_total zero bound events s w l f = absurd (omega arith)
  loop_total (suc fuel) bound events s w l f = elim (Option-cases (get_elem? s.all_times s.index)) [
    | inl e ↦ (ok s, rw (e, run_loop))
    | inr (ts, e) ↦ elim (Result-cases (iterate run events ts s)) [
      | inr (x, bad) ↦ (err x, ground arith)
      | inl (t, done) ↦
          let w' =
            iterate_keeps run (IsWithin run bound) (IsWithin-IsKept run bound) events ts s t w
              done in
          let i = index-iterate events ts s t done in
          let l' = bounded ts e w in
          let (r, h) =
            loop_total fuel bound events t w' (omega (arith, i, l')) (omega (arith, i, f)) in
          (r, ground arith)
    ]
  ]
    where
      bounded :
          (ts : ℕ)
          → get_elem? s.all_times s.index ≡ some ts
          → IsWithin run bound s
          → s.index < bound
      bounded ts e v =
          unfold capacity in omega (arith, v, get_elem?-lt-length s.all_times s.index ts e)

  start_total :
      (p : LongOnlyPortfolio) (events : List DecisionEvent)
      → (r : Result BacktestError Simulation) × (run_loop run
            (rounds_for events run.execution_selectors)
            events
            (start p events)
          ≡ some r)
  start_total p events =
      let us = visibilities run.execution_selectors in
      loop_total (rounds_for events run.execution_selectors)
        (length (event_times events) + length us) events (start p events)
        (unfold capacity in omega (arith, missing-le-length us (event_times events))) (omega arith)
        (omega arith)

  finish_total :
      (ss : Selectors) (o : Option (Result BacktestError Simulation))
      (x : Result BacktestError Simulation)
      → o ≡ some x
      → (r : Result BacktestError SimulationResult) × (finish run.request ss o ≡ some r)
  finish_total ss none x e = absurd (ground arith)
  finish_total ss (some (err e')) x e = (err e', refl)
  finish_total ss (some (ok s)) x e = (conclude run.request ss s, refl)

  from_prepared_total :
      (ss : Selectors) (o : Result BacktestError (LongOnlyPortfolio × List DecisionEvent))
      → (r : Result BacktestError SimulationResult) × (simulate_from run ss o ≡ some r)
  from_prepared_total ss (err e) = (err e, refl)
  from_prepared_total ss (ok (p, es)) =
      let (x, e) = start_total p es in
      finish_total ss (run_loop run (rounds_for es run.execution_selectors) es (start p es)) x e

-- The simulation always ends, with a result or an error: the rounds that the model allows are more
-- than the loop takes.
pub simulate_total :
    (run : Run) (v : Option Selectors)
    → (r : Result BacktestError SimulationResult) × (simulate run v ≡ some r)
unfolding simulate
simulate_total run v =
    let ss = or_execution v run.execution_selectors in from_prepared_total run ss (prepare run ss)
