-- ===== src/Backtest/Trades/Counts.antt =====
-- The counts of `_summary` in backtest/service.py.
use bisfin.Decimal.Signs.{is_positive-below_zero}
use bisfin.Backtest.Errors.{BacktestError}
use bisfin.Base.Result.{ok, >>=-inv, ok_injective, Result, ◌>>=◌}
use bisfin.Backtest.Engine.{SimulatedFill, SimulationResult}
use bisfin.Decimal.{is_positive, Decimal, below_zero}
use bisfin.Backtest.Accounting.{OrderSide, buy, sell}
use bisfin.Backtest.Trades.{
  with_entry, summary, count_if, pnls_from, closed_trade_pnls, Summary, sold_from, entry_of,
  without_entry, with_entry,
}
use bisfin.Base.{
  List, ◌≡◌, ℕ, ◌∷◌, suc, ◌+◌, ◌⊎◌, [], length, ◌≤◌, inl, arith, subst, inr, refl, ap, Bool-cases,
}

-- The number of sells among the fills.
abbrev pub sells : List SimulatedFill → ℕ
sells [] = 0
sells (f ∷ fs) = elim f.economics.side [ buy ↦ sells fs | sell ↦ suc (sells fs) ]

pub side-cases : (side : OrderSide) → (side ≡ buy) ⊎ (side ≡ sell)
side-cases buy = inl refl
side-cases sell = inr refl

length-pnls_from :
    (entries : List (ℕ × SimulatedFill)) (fs : List SimulatedFill) (pnls : List Decimal)
    → pnls_from entries fs ≡ ok pnls
    → length pnls ≡ sells fs
unfolding pnls_from
length-pnls_from entries [] pnls e =
    subst (λ (x : List Decimal). length x ≡ 0) (ok_injective e) refl
length-pnls_from entries (f ∷ fs) pnls e = elim (side-cases f.economics.side) [
  | inl b ↦
      rw b (length-pnls_from (with_entry f.order.signal.instrument_id f entries) fs pnls (opened b))
  | inr q ↦
      let (pnl, e1, h1) =
        >>=-inv (sold_from (entry_of f.order.signal.instrument_id entries) f) _ (closed q) in
      let (rest, e2, h2) =
        >>=-inv (pnls_from (without_entry f.order.signal.instrument_id entries) fs) _ h1 in
      rw q (
        subst (λ (x : List Decimal). length x ≡ suc (sells fs)) (ok_injective h2)
          (ap suc
            (length-pnls_from (without_entry f.order.signal.instrument_id entries) fs rest e2)))
]
  where
    Rest : Result BacktestError (List Decimal)
    Rest = sold_from (entry_of f.order.signal.instrument_id entries) f >>= (λ pnl.
        pnls_from (without_entry f.order.signal.instrument_id entries) fs
        >>= (λ rest. ok (pnl ∷ rest)))

    opened :
        f.economics.side ≡ buy
        → pnls_from (with_entry f.order.signal.instrument_id f entries) fs ≡ ok pnls
    opened b = ground arith

    closed : f.economics.side ≡ sell → Rest ≡ ok pnls
    closed q = ground arith

winning_losing : (xs : List Decimal) → count_if is_positive xs + count_if below_zero xs ≤ length xs
unfolding count_if
winning_losing [] = omega arith
winning_losing (x ∷ xs) = elim (Bool-cases (is_positive x)) [
  | inl e ↦ rw (e, is_positive-below_zero x e) (omega (arith, winning_losing xs))
  | inr e ↦ rw e (ground (arith, winning_losing xs))
]

-- The trades that a summary counts are the sells among the fills, and those won and those lost are
-- together no more than these.
pub summary_counts :
    (initial final_equity : Decimal) (s : SimulationResult) (m : Summary)
    → summary initial final_equity s ≡ ok m
    → (m.trade_count ≡ sells s.fills)
      × (m.winning_trade_count + m.losing_trade_count ≤ m.trade_count)
unfolding summary closed_trade_pnls
summary_counts initial final_equity s m e =
    let (pnls, e1, h1) = >>=-inv (closed_trade_pnls s) _ e in
    subst
      (λ (x : Summary).
        (x.trade_count ≡ sells s.fills)
        × (x.winning_trade_count + x.losing_trade_count ≤ x.trade_count))
      (ok_injective h1) (length-pnls_from [] s.fills pnls e1, winning_losing pnls)
