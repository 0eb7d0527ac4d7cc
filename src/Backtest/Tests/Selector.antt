-- ===== src/Backtest/Tests/Selector.antt =====
-- The bars that backtest/selector.py selects: at 36 the bar of 20 shows its second revision.
mod Causal
use bisfin.Backtest.Selector.Visible.Increasing.{AreIncreasing, visible_bars-AreIncreasing}
use bisfin.Backtest.Selector.Execution.{ShowsBefore, next_execution_bar-IsFirst}
use bisfin.Backtest.Contracts.{DecisionBar}
use bisfin.Backtest.Selector.{next_execution_bar, visible_bars, sort_groups, group_from, latest}
use bisfin.Base.{In, All, ◌<◌, ◌≤◌, inr, keep, inl, ◌≡◌, some, arith, refl}
use bisfin.Backtest.Selector.Visible.{
  ShowsBar, IsShown, visible_bars-ShowsBar, visible_bars-IsNewest,
}
use bisfin.Backtest.Selector.Groups.{IsSelector, select_rows-IsSelector}
use bisfin.Backtest.Tests.{rows, selector, selected, bar}

visible_bars-IsNewest_example : All (IsShown rows 36) (visible_bars selector 36)
visible_bars-IsNewest_example = visible_bars-IsNewest rows selector 36 selected

visible_bars-ShowsBar_example : ShowsBar (visible_bars selector 36) (bar 20 1 25 13)
visible_bars-ShowsBar_example =
    visible_bars-ShowsBar rows selector 36 (bar 20 1 25 13) selected (inr (inr (inl refl)))
      (omega arith)

visible_bars-AreIncreasing_example : AreIncreasing (visible_bars selector 36)
visible_bars-AreIncreasing_example = visible_bars-AreIncreasing rows selector 36 selected

select_rows-IsSelector_example : IsSelector rows selector
select_rows-IsSelector_example = select_rows-IsSelector rows selector selected

executes : next_execution_bar selector 10 15 0 ≡ some (bar 20 1 25 13)
unfolding next_execution_bar sort_groups group_from latest keep
executes = refl

next_execution_bar-IsFirst_example :
    In (bar 20 1 25 13) rows
    × (10 < 20)
    × (15 ≤ 25)
    × ((c : DecisionBar) → In c rows → c.bar_open_ts ≡ 20 → 25 ≤ c.effective_available_at)
    × ((c : DecisionBar)
        → In c rows
        → 10 < c.bar_open_ts
        → c.bar_open_ts < 20
        → ShowsBefore 15 rows c)
next_execution_bar-IsFirst_example =
    next_execution_bar-IsFirst rows selector 10 15 0 (bar 20 1 25 13) selected executes
