-- ===== src/Backtest/Tests/Selector/Causal.antt =====
-- The bars that backtest/selector.py shows at 36, from rows that come in another order and go on
-- otherwise.
use bisfin.Base.{List, [], ◌∷◌, ◌≡◌, inl, inr, refl, arith, ap}
use bisfin.Base.Result.{ok}
use bisfin.Backtest.Contracts.{DecisionBar}
use bisfin.Backtest.Selector.{
  ArtifactBarSelector, select_rows, visible_bars, sort_groups, group_from,
}
use bisfin.Backtest.Selector.Visible.Causal.{AgreeUntil, AreDistinctRevisions, visible_bars_causal}
use bisfin.Backtest.Tests.{rows, selector, selected, bar}

abbrev others : List DecisionBar
others =
    bar 20 2 36 14
    ∷ bar 0 1 5 10
    ∷ bar 10 1 15 12
    ∷ bar 20 1 25 13
    ∷ bar 30 1 35 9
    ∷ bar 40 1 47 99
    ∷ bar 50 1 55 70
    ∷ []

abbrev other_selector : ArtifactBarSelector
other_selector = record { rows_by_open = sort_groups (group_from [] others) }

other_selected : select_rows others ≡ ok other_selector
unfolding select_rows sort_groups group_from
other_selected = refl

known : AgreeUntil 36 rows others
known b v = (
  λ i. elim i [
    | inl e ↦ inr (inl e)
    | inr (inl e) ↦ inr (inr (inl e))
    | inr (inr (inl e)) ↦ inr (inr (inr (inl e)))
    | inr (inr (inr (inl e))) ↦ inr (inr (inr (inr (inl e))))
    | inr (inr (inr (inr (inl e)))) ↦ inl e
    | inr (inr (inr (inr (inr (inl e))))) ↦
        absurd (omega (arith, ap (λ (d : DecisionBar). d.effective_available_at) e))
    | inr (inr (inr (inr (inr (inr x))))) ↦ elim x [ ]
  ],
  λ i. elim i [
    | inl e ↦ inr (inr (inr (inr (inl e))))
    | inr (inl e) ↦ inl e
    | inr (inr (inl e)) ↦ inr (inl e)
    | inr (inr (inr (inl e))) ↦ inr (inr (inl e))
    | inr (inr (inr (inr (inl e)))) ↦ inr (inr (inr (inl e)))
    | inr (inr (inr (inr (inr (inl e))))) ↦
        absurd (omega (arith, ap (λ (d : DecisionBar). d.effective_available_at) e))
    | inr (inr (inr (inr (inr (inr (inl e)))))) ↦
        absurd (omega (arith, ap (λ (d : DecisionBar). d.effective_available_at) e))
    | inr (inr (inr (inr (inr (inr (inr x)))))) ↦ elim x [ ]
  ],
)

distinct_rows : AreDistinctRevisions rows
distinct_rows b c i j o r = ground arith

distinct_others : AreDistinctRevisions others
distinct_others b c i j o r = ground arith

visible_bars_causal_example : visible_bars selector 36 ≡ visible_bars other_selector 36
visible_bars_causal_example =
    visible_bars_causal 36 rows others selector other_selector selected other_selected known
      distinct_rows distinct_others
