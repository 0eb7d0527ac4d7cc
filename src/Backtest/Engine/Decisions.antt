-- ===== src/Backtest/Engine/Decisions.antt =====
-- The decisions of `simulate` in backtest/engine.py.
use bisfin.Backtest.Errors.{BacktestError}
use bisfin.Backtest.Selector.Visible.{IsShown, visible_bars-IsNewest}
use bisfin.Base.Sort.{sorted}
use bisfin.Backtest.Engine.Outcome.{simulate-IsEnded}
use bisfin.Base.Result.{ok, >>=-inv, Result, ok_injective}
use bisfin.Backtest.Contracts.{DecisionBar}
use bisfin.Backtest.Engine.Steps.{IsKept, IsProcessed, loop_keeps, ordered, decided, IsSubmitted}
use bisfin.Backtest.Selector.{ArtifactBarSelector, select_rows, visible_bars}
use bisfin.Base.{
  ℕ, All, List, Option, ◌∷◌, ◌≡◌, ◌≤◌, subst, length, sym, some, arith, All-last_n, All-imp, ◌++◌,
  ◌==◌, ◌+◌, true, [], ap, length-last_n, All-append, Bool-cases, inl, ◌⊎◌, ◌∙◌, inr, none, refl,
}
use bisfin.Backtest.Engine.{
  selector_for, Selectors, Run, SimulatedDecision, Simulation, DecisionEvent, execute_pending,
  SimulationResult, simulate, decision_for, execute_orders, rounds_for, le_semantic, pending_at,
  start, without_pending, SimulatedSignal, SimulatedOrder,
}

-- Each selector was built from some rows.
abbrev pub AreBuilt : Selectors → Type 0
AreBuilt = All (λ e. (rows : List DecisionBar) × (select_rows rows ≡ ok e.1))

pub selector_for-built :
    (i : ℕ) (ss : Selectors) (s : ArtifactBarSelector)
    → AreBuilt ss
    → selector_for i ss ≡ ok s
    → (rows : List DecisionBar) × (select_rows rows ≡ ok s)
unfolding selector_for
selector_for-built i [] s b e = absurd (ground arith)
selector_for-built i ((j, t) ∷ ss) s b e = elim (Bool-cases (j == i)) [
  | inl q ↦ (b.0.0, b.0.1 ∙ e' q)
  | inr q ↦ selector_for-built i ss s b.1 (ground arith)
]
  where
    e' : (j == i) ≡ true → ◌≡◌ {A = Result BacktestError ArtifactBarSelector} (ok t) (ok s)
    e' q = ground arith

-- The inputs of a decision are visible at its instant, and are no more than the slow window.
pub record IsInformed (slow : ℕ) (d : SimulatedDecision) : Type 0 where
  pub visible : All (λ b. b.effective_available_at ≤ d.decision_ts) d.inputs
  pub bounded : length d.inputs ≤ slow

-- The decisions are numbered from `n + 1`.
abbrev pub AreNumbered : ℕ → List SimulatedDecision → Type 0
AreNumbered n [] = Unit
AreNumbered n (d ∷ ds) = (d.sequence ≡ n + 1) × AreNumbered (n + 1) ds

AreNumbered-append :
    (n : ℕ) (ds : List SimulatedDecision) (d : SimulatedDecision)
    → AreNumbered n ds
    → d.sequence ≡ n + length ds + 1
    → AreNumbered n (ds ++ d ∷ [])
AreNumbered-append n [] d h e = (omega arith, tt)
AreNumbered-append n (x ∷ xs) d h e = (h.0, AreNumbered-append (n + 1) xs d h.1 (omega arith))

decision_for-IsInformed :
    (run : Run) (e : DecisionEvent) (selector : ArtifactBarSelector) (s : Simulation)
    (rows : List DecisionBar)
    → select_rows rows ≡ ok selector
    → IsInformed run.request.strategy.slow_window (decision_for run e selector s)
decision_for-IsInformed run e selector s rows built =
    let n = run.request.strategy.slow_window in
    let bars = visible_bars selector e.decision_ts in
    record {
      visible =
          All-last_n (λ b. b.effective_available_at ≤ e.decision_ts) n bars
            (All-imp (IsShown rows e.decision_ts) (λ b. b.effective_available_at ≤ e.decision_ts)
              bars (λ b h. h.1) (visible_bars-IsNewest rows selector e.decision_ts built));
      bounded = omega (arith, length-last_n n bars);
    }

module _ (run : Run) where
  abbrev Decides : Simulation → Type 0
  Decides s =
      All (IsInformed run.request.strategy.slow_window) s.decisions × AreNumbered 0 s.decisions

  decisions-executed :
      (ts : ℕ) (s t : Simulation)
      → execute_pending run.request.transaction_cost_model ts s ≡ ok t
      → s.decisions ≡ t.decisions
  unfolding execute_pending
  decisions-executed ts s t e =
      let (l, done, e') =
        >>=-inv
          (execute_orders run.request.transaction_cost_model
            (sorted le_semantic (pending_at ts s.pending)) (s.portfolio, s.fills))
          (λ l.
            ok (record s { portfolio = l.0; fills = l.1; pending = without_pending ts s.pending }))
          e in
      ap (λ (x : Simulation). x.decisions) (ok_injective e')

  decisions-processed :
      (e : DecisionEvent) (s t : Simulation) (p : IsProcessed run e s t)
      → (s.decisions ++ p.decision ∷ []) ≡ t.decisions
  decisions-processed e s t p = by p.outcome
    where
      kept :
          (g : SimulatedSignal) (o : SimulatedOrder) (bar : Option DecisionBar)
          → (s.decisions ++ p.decision ∷ []) ≡ (ordered g o bar (decided p.decision s)).decisions
      kept g o none = refl
      kept g o (some b) = refl

      by :
          (t ≡ decided p.decision s) ⊎ IsSubmitted run p.decision s t
          → (s.decisions ++ p.decision ∷ []) ≡ t.decisions
      by (inl q) = rw q refl
      by (inr q) = rw q.after (kept q.signal q.order q.bar)

  Decides-IsKept : AreBuilt run.signal_selectors → IsKept run Decides
  Decides-IsKept built = record {
    by_fills = λ ts s t h e.
        subst
          (λ (ds : List SimulatedDecision).
            All (IsInformed run.request.strategy.slow_window) ds × AreNumbered 0 ds)
          (decisions-executed ts s t e) h;
    by_event = λ e s t h p.
        subst
          (λ (ds : List SimulatedDecision).
            All (IsInformed run.request.strategy.slow_window) ds × AreNumbered 0 ds)
          (decisions-processed e s t p)
          (
            All-append (IsInformed run.request.strategy.slow_window) s.decisions (p.decision ∷ [])
                h.0 (informed e s t p, tt),
            AreNumbered-append 0 s.decisions p.decision h.1 (numbered e s t p),
          );
    by_index = λ s h. h;
  }
    where
      informed :
          (e : DecisionEvent) (s t : Simulation) (p : IsProcessed run e s t)
          → IsInformed run.request.strategy.slow_window p.decision
      informed e s t p =
          let (rows, b) =
            selector_for-built e.instrument_id run.signal_selectors p.selector built
              p.selector_found in
          subst (IsInformed run.request.strategy.slow_window) (sym p.decision_lem)
            (decision_for-IsInformed run e p.selector s rows b)

      numbered :
          (e : DecisionEvent) (s t : Simulation) (p : IsProcessed run e s t)
          → p.decision.sequence ≡ 0 + length s.decisions + 1
      numbered e s t p = omega (arith, ap (λ (d : SimulatedDecision). d.sequence) p.decision_lem)

-- If the signal selectors were built from rows, each decision of a simulation that returns a result
-- rests on at most `slow_window` bars, all of them available at the instant of the decision, and
-- the decisions are numbered 1, 2, 3 and so on.
pub simulate-Decides :
    (run : Run) (v : Option Selectors) (r : SimulationResult)
    → AreBuilt run.signal_selectors
    → simulate run v ≡ some (ok r)
    → All (IsInformed run.request.strategy.slow_window) r.decisions × AreNumbered 0 r.decisions
simulate-Decides run v r built h =
    let e = simulate-IsEnded run v r h in
    rw e.decisions_lem (
      loop_keeps run (Decides run) (Decides-IsKept run built)
        (rounds_for e.events run.execution_selectors) e.events (start e.portfolio e.events) e.last
        (tt, tt) e.looped)
