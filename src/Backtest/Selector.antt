-- ===== src/Backtest/Selector.antt =====
-- backtest/selector.py: point-in-time selection over the rows of one artifact. The dict
-- `_rows_by_open` is an association list in insertion order.
pub mod Groups
pub mod Visible
pub mod SortedGroups
pub mod Execution
use bisfin.Base.{
  ℕ, ◌+◌, ◌*◌, Bool, Option, none, some, List, [], ◌∷◌, ◌++◌, ◌==◌, ltb, leb, ◌&&◌, ◌||◌,
  if◌then◌else◌, keep,
}
use bisfin.Base.Sort.{sorted, max_from}
use bisfin.Base.Result.{Result, ok, err}
use bisfin.Backtest.Errors.{BacktestError, empty_component}
use bisfin.Backtest.Contracts.{DecisionBar}

-- A bar's open time and its revisions.
abbrev pub Group : Type 0
Group = ℕ × List DecisionBar

pub record ArtifactBarSelector : Type 0 where
  pub rows_by_open : List Group

-- `by_open.setdefault(row.bar_open_ts, []).append(row)`.
unfoldable pub add_row : DecisionBar → List Group → List Group
add_row row [] = (row.bar_open_ts, row ∷ []) ∷ []
add_row row ((k, rows) ∷ gs) =
    if k == row.bar_open_ts then (k, rows ++ row ∷ []) ∷ gs else (k, rows) ∷ add_row row gs

unfoldable pub group_from : List Group → List DecisionBar → List Group
unfolding add_row
group_from gs [] = gs
group_from gs (row ∷ rows) = group_from (add_row row gs) rows

-- The key `(item.effective_available_at, item.revision_no)`.
abbrev pub le_visibility : DecisionBar → DecisionBar → Bool
le_visibility x y =
    ltb x.effective_available_at y.effective_available_at
    || (x.effective_available_at == y.effective_available_at) && leb x.revision_no y.revision_no

unfoldable pub sort_groups : List Group → List Group
unfolding sorted
sort_groups [] = []
sort_groups ((k, rows) ∷ gs) = (k, sorted le_visibility rows) ∷ sort_groups gs

-- `ArtifactBarSelector.__init__`.
abbrev selector_of : List Group → Result BacktestError ArtifactBarSelector
selector_of [] = err empty_component
selector_of (g ∷ gs) = ok (record { rows_by_open = sort_groups (g ∷ gs) })

unfoldable pub select_rows : List DecisionBar → Result BacktestError ArtifactBarSelector
unfolding group_from sort_groups
select_rows rows = selector_of (group_from [] rows)

-- `(revisions[0].effective_available_at, bar_open_ts)` for each logical bar; no group is empty.
unfoldable pub first_visibilities : List Group → List (ℕ × ℕ)
first_visibilities [] = []
first_visibilities ((k, []) ∷ gs) = first_visibilities gs
first_visibilities ((k, r ∷ rs) ∷ gs) = (r.effective_available_at, k) ∷ first_visibilities gs

abbrev le_schedule : ℕ × ℕ → ℕ × ℕ → Bool
le_schedule x y = ltb x.0 y.0 || (x.0 == y.0) && leb x.1 y.1

unfoldable pub decision_schedule : ArtifactBarSelector → List (ℕ × ℕ)
unfolding first_visibilities sorted
decision_schedule s = sorted le_schedule (first_visibilities s.rows_by_open)

abbrev pub is_visible : ℕ → DecisionBar → Bool
is_visible ts b = leb b.effective_available_at ts

abbrev older : DecisionBar → DecisionBar → Bool
older x y = ltb x.revision_no y.revision_no

-- `max(candidates, key=lambda item: item.revision_no)` of candidates that are not empty.
unfoldable pub latest : List DecisionBar → Option DecisionBar
unfolding max_from
latest [] = none
latest (x ∷ xs) = some (max_from older x xs)

abbrev cons_if : Option DecisionBar → List DecisionBar → List DecisionBar
cons_if none bs = bs
cons_if (some b) bs = b ∷ bs

unfoldable pub select_visible : ℕ → List Group → List DecisionBar
select_visible ts [] = []
select_visible ts ((k, rows) ∷ gs) =
    cons_if (latest (keep (is_visible ts) rows)) (select_visible ts gs)

abbrev le_open : DecisionBar → DecisionBar → Bool
le_open x y = leb x.bar_open_ts y.bar_open_ts

unfoldable pub visible_bars : ArtifactBarSelector → ℕ → List DecisionBar
unfolding select_visible sorted
visible_bars s ts = sorted le_open (select_visible ts s.rows_by_open)

abbrev le_key : Group → Group → Bool
le_key x y = leb x.0 y.0

-- The loop of `next_execution_bar` over the groups in the order of their keys.
unfoldable pub find_execution : ℕ → ℕ → List Group → Option DecisionBar
find_execution signal earliest [] = none
find_execution signal earliest ((k, []) ∷ gs) = find_execution signal earliest gs
find_execution signal earliest ((k, r ∷ rs) ∷ gs) =
    let rest = find_execution signal earliest gs in
    if leb k signal
    then rest
    else if ltb r.effective_available_at earliest
    then rest
    else latest (keep (is_visible r.effective_available_at) (r ∷ rs))

abbrev pub microseconds : ℕ → ℕ
microseconds seconds = seconds * 1000000

-- `lag` in microseconds.
unfoldable pub next_execution_bar : ArtifactBarSelector → ℕ → ℕ → ℕ → Option DecisionBar
unfolding find_execution sorted
next_execution_bar s signal_bar_open_ts submitted_at lag =
    find_execution signal_bar_open_ts (submitted_at + lag) (sorted le_key s.rows_by_open)
