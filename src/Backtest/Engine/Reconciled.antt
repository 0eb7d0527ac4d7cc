-- ===== src/Backtest/Engine/Reconciled.antt =====
-- The cash, the positions and the valuations of `simulate` in backtest/engine.py, against its fills.
use bisfin.Base.{
  ℕ, ◌≡◌, refl, sym, ◌∙◌, Option, none, some, List, [], ◌∷◌, ◌++◌, All, arith, subst, map, inl, inr,
  ◌==◌, if◌then◌else◌, ap, Bool-cases, false,
}
use bisfin.Base.Result.{Result, ok, err, >>=-inv, ok_injective}
use bisfin.Decimal.{Decimal, dec, add, mul, sum_from, below_zero}
use bisfin.Backtest.Errors.{BacktestError}
use bisfin.Backtest.Contracts.{DecisionBar, RunInstrumentSpec}
use bisfin.Backtest.Accounting.{
  PricedFill, PositionState, LongOnlyPortfolio, apply_fill, cash_delta, position, open_portfolio,
}
use bisfin.Backtest.Accounting.Portfolio.{apply_fill_refused}
use bisfin.Backtest.Accounting.Movements.{moved, apply_fill_moves}
use bisfin.Backtest.Engine.{
  Run, SimulationResult, SimulatedOrder, SimulatedFill, SimulatedValuation, Ledger, Selectors, book,
  fill_of, positions_of, simulate, or_execution, valuation_for, final_valuations, last_bar,
  selector_for,
}
use bisfin.Backtest.Selector.{visible_bars}
use bisfin.Backtest.Engine.Outcome.{simulate-IsEnded}
use bisfin.Backtest.Engine.Booked.{ledger_ends}

-- The cash after some fills, one after another.
abbrev pub cash_after : Decimal → List SimulatedFill → Decimal
cash_after cash [] = cash
cash_after cash (f ∷ fs) = cash_after (add cash (cash_delta f.economics)) fs

-- The quantity of an instrument after some fills, of which only its own count.
abbrev pub quantity_after : ℕ → Decimal → List SimulatedFill → Decimal
quantity_after i q [] = q
quantity_after i q (f ∷ fs) =
    quantity_after i
      (if f.order.signal.instrument_id == i
        then moved f.economics.side q f.economics.quantity
        else q)
      fs

cash_after-append :
    (cash : Decimal) (fs : List SimulatedFill) (f : SimulatedFill)
    → cash_after cash (fs ++ f ∷ []) ≡ add (cash_after cash fs) (cash_delta f.economics)
cash_after-append cash [] f = refl
cash_after-append cash (g ∷ fs) f = cash_after-append (add cash (cash_delta g.economics)) fs f

quantity_after-append :
    (i : ℕ) (q : Decimal) (fs : List SimulatedFill) (f : SimulatedFill)
    → quantity_after i q (fs ++ f ∷ []) ≡ (
        if f.order.signal.instrument_id == i
        then moved f.economics.side (quantity_after i q fs) f.economics.quantity
        else quantity_after i q fs)
quantity_after-append i q [] f = refl
quantity_after-append i q (g ∷ fs) f =
    quantity_after-append i
      (if g.order.signal.instrument_id == i
        then moved g.economics.side q g.economics.quantity
        else q)
      fs f

-- The portfolio holds what the capital and the fills make.
record IsBalanced (capital : Decimal) (l : Ledger) : Type 0 where
  cash : l.0.cash ≡ cash_after capital l.1
  quantity : (i : ℕ) → (position i l.0).quantity ≡ quantity_after i (dec 0) l.1

book-IsBalanced :
    (capital : Decimal) (o : SimulatedOrder) (bar : DecisionBar) (f : PricedFill) (l : Ledger)
    (r : Result BacktestError PositionState × LongOnlyPortfolio)
    → apply_fill o.signal.instrument_id f l.0 ≡ r
    → IsBalanced capital l
    → IsBalanced capital (book o bar f l.1 r)
book-IsBalanced capital o bar f l (err e, p) applied h =
    let (same, _) =
      apply_fill_refused o.signal.instrument_id f l.0 e
        (ap (λ (r : Result BacktestError PositionState × LongOnlyPortfolio). r.0) applied) in
    let kept : l.0 ≡ p =
      sym same ∙ ap (λ (r : Result BacktestError PositionState × LongOnlyPortfolio). r.1) applied in
    record { cash = rw (← kept) h.cash; quantity = λ i. rw (← kept) (h.quantity i) }
book-IsBalanced capital o bar f l (ok s, p) applied h = record {
  cash = rw (← left) (
      (moves o.signal.instrument_id).0
      ∙ ap (λ (c : Decimal). add c (cash_delta f)) h.cash
      ∙ sym (cash_after-append capital l.1 (fill_of o bar f)));
  quantity = λ i. rw (← left) (
      (moves i).1
      ∙ ap (λ (q : Decimal). if o.signal.instrument_id == i then moved f.side q f.quantity else q)
          (h.quantity i)
      ∙ sym (quantity_after-append i (dec 0) l.1 (fill_of o bar f)));
}
  where
    left : (apply_fill o.signal.instrument_id f l.0).1 ≡ p
    left = ap (λ (r : Result BacktestError PositionState × LongOnlyPortfolio). r.1) applied

    moves :
        (j : ℕ)
        → ((apply_fill o.signal.instrument_id f l.0).1.cash ≡ add l.0.cash (cash_delta f))
          × ((position j (apply_fill o.signal.instrument_id f l.0).1).quantity ≡ (
              if o.signal.instrument_id == j
              then moved f.side (position j l.0).quantity f.quantity
              else (position j l.0).quantity))
    moves j =
        apply_fill_moves o.signal.instrument_id j f l.0 s
          (ap (λ (r : Result BacktestError PositionState × LongOnlyPortfolio). r.0) applied)

open_portfolio-IsBalanced :
    (capital : Decimal) (p : LongOnlyPortfolio)
    → open_portfolio capital ≡ ok p
    → IsBalanced capital (p, [])
unfolding open_portfolio position
open_portfolio-IsBalanced capital p h = elim (Bool-cases (below_zero capital)) [
  | inl e ↦ absurd (ground arith)
  | inr e ↦
      subst (λ (q : LongOnlyPortfolio). IsBalanced capital (q, [])) (opened e)
        (record { cash = refl; quantity = λ i. refl })
]
  where
    opened : below_zero capital ≡ false → record { cash = capital; positions = [] } ≡ p
    opened e = ground arith

-- A valuation of the quantity that the fills make, at the close of its bar.
pub record IsValued (fs : List SimulatedFill) (v : SimulatedValuation) : Type 0 where
  pub quantity : v.quantity ≡ quantity_after v.instrument_id (dec 0) fs
  pub market_value : v.market_value ≡ mul v.quantity v.reference_bar.close_price

-- The cash, the positions, the valuations and the equity of a result agree with its fills.
pub record IsReconciled (run : Run) (r : SimulationResult) : Type 0 where
  pub cash : r.cash ≡ cash_after run.request.initial_capital r.fills
  pub positions : All (λ e. e.1.quantity ≡ quantity_after e.0 (dec 0) r.fills) r.positions
  pub held_each : map (λ e. e.0) r.positions ≡ map (λ x. x.instrument_id) run.request.instruments
  pub valuations : All (IsValued r.fills) r.valuations
  pub valued_each :
      map (λ v. v.instrument_id) r.valuations ≡ map (λ x. x.instrument_id) run.request.instruments
  pub equity :
      r.equity_base ≡ add r.cash (sum_from (dec 0) (map (λ v. v.market_value) r.valuations))

module _ (capital : Decimal) (p : LongOnlyPortfolio) (fs : List SimulatedFill)
    (h : IsBalanced capital (p, fs)) where
  positions_of-quantity :
      (xs : List RunInstrumentSpec)
      → All (λ e. e.1.quantity ≡ quantity_after e.0 (dec 0) fs) (positions_of p xs)
        × (map (λ e. e.0) (positions_of p xs) ≡ map (λ x. x.instrument_id) xs)
  positions_of-quantity [] = (tt, refl)
  positions_of-quantity (x ∷ xs) =
      let (rest, ids) = positions_of-quantity xs in
      ((h.quantity x.instrument_id, rest), ap (λ (is : List ℕ). x.instrument_id ∷ is) ids)

  valuation_for-IsValued :
      (ts i : ℕ) (bar : Option DecisionBar) (v : SimulatedValuation)
      → valuation_for ts i p bar ≡ ok v
      → IsValued fs v × (v.instrument_id ≡ i)
  valuation_for-IsValued ts i none v e = cc
  valuation_for-IsValued ts i (some bar) v e =
      subst (λ (x : SimulatedValuation). IsValued fs x × (x.instrument_id ≡ i)) (ok_injective e)
        (record { quantity = h.quantity i; market_value = refl }, refl)

  final_valuations-AreValued :
      (ts : ℕ) (ss : Selectors) (xs : List RunInstrumentSpec) (vs : List SimulatedValuation)
      → final_valuations ts p ss xs ≡ ok vs
      → All (IsValued fs) vs × (map (λ v. v.instrument_id) vs ≡ map (λ x. x.instrument_id) xs)
  unfolding final_valuations
  final_valuations-AreValued ts ss [] vs e =
      subst
        (λ (ys : List SimulatedValuation).
          All (IsValued fs) ys × (map (λ v. v.instrument_id) ys ≡ []))
        (ok_injective e) (tt, refl)
  final_valuations-AreValued ts ss (x ∷ xs) vs e =
      let (selector, _, e1) = >>=-inv (selector_for x.instrument_id ss) _ e in
      let (v, valued, e2) =
        >>=-inv (valuation_for ts x.instrument_id p (last_bar (visible_bars selector ts))) _ e1 in
      let (rest, more, e3) = >>=-inv (final_valuations ts p ss xs) _ e2 in
      let (one, id) =
        valuation_for-IsValued ts x.instrument_id (last_bar (visible_bars selector ts)) v valued in
      let (others, ids) = final_valuations-AreValued ts ss xs rest more in
      subst
        (λ (ys : List SimulatedValuation).
          All (IsValued fs) ys
          × (map (λ v. v.instrument_id) ys ≡ map (λ y. y.instrument_id) (x ∷ xs)))
        (ok_injective e3) ((one, others), rw (id, ids) refl)

-- If a simulation returns a result, its cash is the initial capital with the cash changes of its
-- fills, in their order; it has one position and one valuation for each instrument of the request,
-- in the order of the request, with the quantity that the fills of the instrument make; each market
-- value is this quantity at the close of the bar of the valuation; and the equity is the cash and the sum
-- of the market values.
pub simulate-IsReconciled :
    (run : Run) (v : Option Selectors) (r : SimulationResult)
    → simulate run v ≡ some (ok r)
    → IsReconciled run r
simulate-IsReconciled run v r h =
    let e = simulate-IsEnded run v r h in
    let capital = run.request.initial_capital in
    let b =
      ledger_ends run (IsBalanced capital)
        (λ o bar f l priced k.
          book-IsBalanced capital o bar f l (apply_fill o.signal.instrument_id f l.0) refl k)
        e (open_portfolio-IsBalanced capital e.portfolio e.opened) in
    let (quantities, held) =
      positions_of-quantity capital e.last.portfolio e.last.fills b run.request.instruments in
    let (values, valued) =
      final_valuations-AreValued capital e.last.portfolio e.last.fills b run.request.event_to
        (or_execution v run.execution_selectors) run.request.instruments r.valuations
        e.valuations_lem in
    record {
      cash = rw (e.fills_lem, e.cash_lem) b.cash;
      positions = rw (e.fills_lem, e.positions_lem) quantities;
      held_each = rw e.positions_lem held;
      valuations = rw e.fills_lem values;
      valued_each = valued;
      equity = rw e.cash_lem e.equity_lem;
    }
