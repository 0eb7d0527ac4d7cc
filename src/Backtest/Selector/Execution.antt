-- ===== src/Backtest/Selector/Execution.antt =====
-- The bar that `next_execution_bar` of backtest/selector.py returns.
mod Chosen
use Chosen.{IsChosen, head-IsChosen, tail-IsChosen}
use bisfin.Backtest.Selector.SortedGroups.{
  InGroups-sorted, InGroups-sorted_of, sorted-AreKeyed, le_key-IsOrder,
}
use bisfin.Base.{
  ℕ, ◌+◌, ◌≡◌, inl, inr, some, List, [], ◌∷◌, In, arith, ◌≤◌, ◌<◌, Bool-cases, In-keep, keep, ltb,
  leb,
}
use bisfin.Base.Sort.{sorted, All-sorted, IsSorted, sorted-IsSorted}
use bisfin.Base.Result.{ok}
use bisfin.Backtest.Contracts.{DecisionBar}
use bisfin.Backtest.Selector.{
  Group, ArtifactBarSelector, is_visible, le_key, le_visibility, find_execution, next_execution_bar,
  select_rows,
}
use bisfin.Backtest.Selector.Groups.{InGroups, AreKeyed, AreOrdered, select_rows-IsSelector}
use bisfin.Backtest.Selector.Visible.{latest-In}

-- Some revision of the bar of `c` shows before `earliest`.
abbrev pub ShowsBefore : ℕ → List DecisionBar → DecisionBar → Type 0
ShowsBefore earliest rows c =
    (d : DecisionBar) × In d rows
    × (d.bar_open_ts ≡ c.bar_open_ts)
    × (d.effective_available_at < earliest)

find_execution-IsChosen :
    (signal earliest : ℕ) (gs : List Group) (b : DecisionBar)
    → AreKeyed gs
    → AreOrdered gs
    → IsSorted le_key gs
    → find_execution signal earliest gs ≡ some b
    → IsChosen signal earliest gs b
unfolding find_execution
find_execution-IsChosen signal earliest [] b h o s e = absurd (ground arith)
find_execution-IsChosen signal earliest ((k, []) ∷ gs) b h o s e = absurd (ground arith)
find_execution-IsChosen signal earliest ((k, r ∷ rs) ∷ gs) b h o s e =
    elim (Bool-cases (leb k signal)) [
      | inl early ↦
          tail-IsChosen signal earliest k r rs gs h o.0 s.0 b (inl early)
            (find_execution-IsChosen signal earliest gs b h.3 o.1 s.1 (ground arith))
      | inr after ↦ elim (Bool-cases (ltb r.effective_available_at earliest)) [
        | inl soon ↦
            tail-IsChosen signal earliest k r rs gs h o.0 s.0 b (inr soon)
              (find_execution-IsChosen signal earliest gs b h.3 o.1 s.1 (ground arith))
        | inr in_time ↦
            head-IsChosen signal earliest k r rs gs h o.0 s.0 b after in_time (ground arith)
      ]
    ]

-- The execution bar that the selector of some rows returns is one of these rows, opens after the
-- signal's bar and is available no earlier than the lag after the submission, at the first
-- visibility of its bar; each bar that opens between the two has a revision that is available
-- earlier than that.
pub next_execution_bar-IsFirst :
    (rows : List DecisionBar) (s : ArtifactBarSelector) (signal submitted lag : ℕ) (b : DecisionBar)
    → select_rows rows ≡ ok s
    → next_execution_bar s signal submitted lag ≡ some b
    → In b rows
      × (signal < b.bar_open_ts)
      × (submitted + lag ≤ b.effective_available_at)
      × ((c : DecisionBar)
          → In c rows
          → c.bar_open_ts ≡ b.bar_open_ts
          → b.effective_available_at ≤ c.effective_available_at)
      × ((c : DecisionBar)
          → In c rows
          → signal < c.bar_open_ts
          → c.bar_open_ts < b.bar_open_ts
          → ShowsBefore (submitted + lag) rows c)
unfolding next_execution_bar
next_execution_bar-IsFirst rows s signal submitted lag b h e =
    let valid = select_rows-IsSelector rows s h in
    let gs = s.rows_by_open in
    let chosen =
      find_execution-IsChosen signal (submitted + lag) (sorted le_key gs) b
        (sorted-AreKeyed gs valid.keyed)
        (All-sorted le_key (λ g. IsSorted le_visibility g.1) gs valid.ordered)
        (sorted-IsSorted le_key le_key-IsOrder gs) e in
    (
      valid.sound b (InGroups-sorted b gs chosen.member),
      chosen.later,
      chosen.in_time,
      λ c i o. chosen.first_visible c (InGroups-sorted_of c gs (valid.complete c i)) o,
      λ c i l m.
          let (d, j, o, v) = chosen.skipped c (InGroups-sorted_of c gs (valid.complete c i)) l m in
          (d, valid.sound d (InGroups-sorted d gs j), o, v),
    )

find_execution-InGroups :
    (signal earliest : ℕ) (gs : List Group) (b : DecisionBar)
    → find_execution signal earliest gs ≡ some b
    → InGroups b gs
unfolding find_execution
find_execution-InGroups signal earliest [] b e = absurd (ground arith)
find_execution-InGroups signal earliest ((k, []) ∷ gs) b e =
    inr (find_execution-InGroups signal earliest gs b e)
find_execution-InGroups signal earliest ((k, r ∷ rs) ∷ gs) b e =
    let kept = keep (is_visible r.effective_available_at) (r ∷ rs) in
    ground (
      arith,
      find_execution-InGroups signal earliest gs b,
      latest-In kept b,
      In-keep (is_visible r.effective_available_at) b (r ∷ rs),
    )

-- Whatever the groups are, the execution bar is one of their rows.
pub next_execution_bar-InGroups :
    (s : ArtifactBarSelector) (signal submitted lag : ℕ) (b : DecisionBar)
    → next_execution_bar s signal submitted lag ≡ some b
    → InGroups b s.rows_by_open
unfolding next_execution_bar
next_execution_bar-InGroups s signal submitted lag b e =
    InGroups-sorted b s.rows_by_open
      (find_execution-InGroups signal (submitted + lag) (sorted le_key s.rows_by_open) b e)
