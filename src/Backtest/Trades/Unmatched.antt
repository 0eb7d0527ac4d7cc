-- ===== src/Backtest/Trades/Unmatched.antt =====
-- The sells that `_closed_trade_pnls` of backtest/service.py refuses.
use bisfin.Base.{
  ℕ, ◌≡◌, ◌≢◌, ◌⊎◌, refl, inl, inr, none, List, [], ◌∷◌, ◌++◌, All, arith, ◌==◌, Bool-cases,
  Option-cases, sym,
}
use bisfin.Base.Result.{err}
use bisfin.Decimal.{Decimal}
use bisfin.Backtest.Errors.{sell_without_entry}
use bisfin.Backtest.Accounting.{buy, sell}
use bisfin.Backtest.Engine.{SimulatedFill, SimulationResult}
use bisfin.Backtest.Trades.Counts.{side-cases}
use bisfin.Backtest.Trades.{
  summary, entry_of, without_entry, with_entry, pnls_from, closed_trade_pnls,
}

-- The fill is no buy of the instrument.
abbrev pub IsNoBuyOf : ℕ → SimulatedFill → Type 0
IsNoBuyOf i f = (f.economics.side ≡ sell) ⊎ (f.order.signal.instrument_id ≢ i)

-- The fill sells the instrument.
abbrev pub IsSellOf : ℕ → SimulatedFill → Type 0
IsSellOf i f = (f.economics.side ≡ sell) × (f.order.signal.instrument_id ≡ i)

entry_of-without_entry :
    (i j : ℕ) (es : List (ℕ × SimulatedFill))
    → (i ≡ j) ⊎ (entry_of i es ≡ none)
    → entry_of i (without_entry j es) ≡ none
unfolding entry_of without_entry
entry_of-without_entry i j [] h = refl
entry_of-without_entry i j ((k, f) ∷ es) (inl e) =
    ground (arith, entry_of-without_entry i j es (inl e))
entry_of-without_entry i j ((k, f) ∷ es) (inr n) = elim (Bool-cases (k == i)) [
  | inl e ↦ absurd (ground arith)
  | inr e ↦ ground (arith, entry_of-without_entry i j es (inr (ground arith)))
]

entry_of-with_entry :
    (i j : ℕ) (f : SimulatedFill) (es : List (ℕ × SimulatedFill))
    → j ≢ i
    → entry_of i es ≡ none
    → entry_of i (with_entry j f es) ≡ none
unfolding entry_of
entry_of-with_entry i j f [] ne n = ground arith
entry_of-with_entry i j f ((k, g) ∷ es) ne n = elim (Bool-cases (k == i)) [
  | inl e ↦ absurd (ground arith)
  | inr other ↦ elim (Bool-cases (k == j)) [
    | inl e ↦ rw e (ground arith)
    | inr e ↦ rw e (ground (arith, entry_of-with_entry i j f es ne (ground arith)))
  ]
]

buy_step :
    (es : List (ℕ × SimulatedFill)) (f : SimulatedFill) (fs : List SimulatedFill)
    → f.economics.side ≡ buy
    → pnls_from (with_entry f.order.signal.instrument_id f es) fs ≡ err sell_without_entry
    → pnls_from es (f ∷ fs) ≡ err sell_without_entry
unfolding pnls_from
buy_step es f fs b h = rw b h

sell_step :
    (es : List (ℕ × SimulatedFill)) (f : SimulatedFill) (fs : List SimulatedFill)
    → f.economics.side ≡ sell
    → pnls_from (without_entry f.order.signal.instrument_id es) fs ≡ err sell_without_entry
    → pnls_from es (f ∷ fs) ≡ err sell_without_entry
unfolding pnls_from
sell_step es f fs q h = elim (Option-cases (entry_of f.order.signal.instrument_id es)) [
  | inl n ↦ rw (q, n) refl
  | inr (entry, e) ↦ rw (q, e, h) refl
]

unmatched_sell :
    (i : ℕ) (es : List (ℕ × SimulatedFill)) (g : SimulatedFill) (after : List SimulatedFill)
    → entry_of i es ≡ none
    → IsSellOf i g
    → pnls_from es (g ∷ after) ≡ err sell_without_entry
unfolding pnls_from
unmatched_sell i es g after n (q, same) = rw (q, same, n) refl

unmatched_between :
    (i : ℕ) (es : List (ℕ × SimulatedFill)) (between : List SimulatedFill) (g : SimulatedFill)
    (after : List SimulatedFill)
    → entry_of i es ≡ none
    → All (IsNoBuyOf i) between
    → IsSellOf i g
    → pnls_from es (between ++ g ∷ after) ≡ err sell_without_entry
unmatched_between i es [] g after n h s = unmatched_sell i es g after n s
unmatched_between i es (f ∷ fs) g after n h s = elim (side-cases f.economics.side) [
  | inr q ↦ sell_step es f (fs ++ g ∷ after) q (
      unmatched_between i (without_entry f.order.signal.instrument_id es) fs g after
        (entry_of-without_entry i f.order.signal.instrument_id es (inr n)) h.1 s)
  | inl b ↦ buy_step es f (fs ++ g ∷ after) b (
      unmatched_between i (with_entry f.order.signal.instrument_id f es) fs g after
        (entry_of-with_entry i f.order.signal.instrument_id f es (other b h.0) n) h.1 s)
]
  where
    other : f.economics.side ≡ buy → IsNoBuyOf i f → f.order.signal.instrument_id ≢ i
    other b (inl q) = absurd (cc)
    other b (inr ne) = ne

module _ (i : ℕ) (f g : SimulatedFill) (between after : List SimulatedFill) (first : IsSellOf i f)
    (none_between : All (IsNoBuyOf i) between) (second : IsSellOf i g) where
  unmatched_from :
      (es : List (ℕ × SimulatedFill)) (before : List SimulatedFill)
      → pnls_from es (before ++ f ∷ (between ++ g ∷ after)) ≡ err sell_without_entry
  unmatched_from es [] = sell_step es f (between ++ g ∷ after) first.0 (
      unmatched_between i (without_entry f.order.signal.instrument_id es) between g after
        (entry_of-without_entry i f.order.signal.instrument_id es (inl (sym first.1))) none_between
        second)
  unmatched_from es (h ∷ before) = elim (side-cases h.economics.side) [
    | inl b ↦
        buy_step es h (before ++ f ∷ (between ++ g ∷ after)) b
          (unmatched_from (with_entry h.order.signal.instrument_id h es) before)
    | inr q ↦
        sell_step es h (before ++ f ∷ (between ++ g ∷ after)) q
          (unmatched_from (without_entry h.order.signal.instrument_id es) before)
  ]

-- A second sell of an instrument without a buy of it in between, wherever it stands among the fills,
-- makes the calculation of the closed trades, and with it the summary, fail for want of an entry:
-- one sell closes the whole entry, also where it sells only a part of what is held.
pub summary_unmatched :
    (initial final_equity : Decimal) (s : SimulationResult) (i : ℕ) (f g : SimulatedFill)
    (before between after : List SimulatedFill)
    → s.fills ≡ before ++ f ∷ (between ++ g ∷ after)
    → IsSellOf i f
    → All (IsNoBuyOf i) between
    → IsSellOf i g
    → summary initial final_equity s ≡ err sell_without_entry
unfolding summary closed_trade_pnls
summary_unmatched initial final_equity s i f g before between after shape first none_between
      second =
    rw (shape, unmatched_from i f g between after first none_between second [] before) refl
