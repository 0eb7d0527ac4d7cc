-- ===== src/Backtest/Loading/Rows.antt =====
-- The rows that `load_artifact_bars` of backtest/snapshot_data.py returns, and the range that
-- `_load_selectors` of backtest/service.py asks of them.
use bisfin.Base.{
  ℕ, ◌≡◌, ◌≤◌, ◌<◌, refl, true, not, Option, none, some, List, [], ◌∷◌, All, In, inl, inr, arith,
  ◌==◌, ltb, subst, Bool-cases,
}
use bisfin.Base.Result.{ok, >>=-inv, ok_injective, raise_if-inv}
use bisfin.Base.Texts.{Text}
use bisfin.Backtest.Errors.{series_mismatch, invalid_revision, blank_row}
use bisfin.Backtest.Contracts.{BacktestRunRequest, DecisionBar}
use bisfin.Backtest.Loading.{
  Artifacts, rows_of_lines, load_artifact_bars, decoded, is_blank, nonempty, rows_of_file,
  any_in_range, in_range,
}

-- A row of the series, with a number of a revision.
abbrev pub IsRowOf : ℕ → DecisionBar → Type 0
IsRowOf series row = (row.bar_series_id ≡ series) × (1 ≤ row.revision_no)

module _ (artifacts : Artifacts) where
  rows_of_lines-AreRows :
      (series : ℕ) (lines : List Text) (rows : List DecisionBar)
      → rows_of_lines artifacts series lines ≡ ok rows
      → All (IsRowOf series) rows
  unfolding rows_of_lines
  rows_of_lines-AreRows series [] rows h = subst (All (IsRowOf series)) (ok_injective h) tt
  rows_of_lines-AreRows series (line ∷ lines) rows h =
      let (_, h1) = raise_if-inv (is_blank line) blank_row _ h in
      let (bar, _, h2) = >>=-inv (decoded (artifacts.decode line)) _ h1 in
      let (same, h3) = raise_if-inv (not (bar.bar_series_id == series)) series_mismatch _ h2 in
      let (numbered, h4) = raise_if-inv (ltb bar.revision_no 1) invalid_revision _ h3 in
      let (rest, more, h5) = >>=-inv (rows_of_lines artifacts series lines) _ h4 in
      subst (All (IsRowOf series)) (ok_injective h5)
        ((ground arith, ground arith), rows_of_lines-AreRows series lines rest more)

  pub load_artifact_bars-AreRows :
      (uri : Text) (series : ℕ) (rows : List DecisionBar)
      → load_artifact_bars artifacts uri series ≡ ok rows
      → All (IsRowOf series) rows
  unfolding load_artifact_bars
  load_artifact_bars-AreRows uri series rows h = read (artifacts.lines uri) h
    where
      some_rows :
          (found : List DecisionBar)
          → All (IsRowOf series) found
          → nonempty found ≡ ok rows
          → All (IsRowOf series) rows
      some_rows [] a e = absurd (cc)
      some_rows (row ∷ more) a e = subst (All (IsRowOf series)) (ok_injective e) a

      read :
          (file : Option (List Text))
          → rows_of_file artifacts series file ≡ ok rows
          → All (IsRowOf series) rows
      read none e = absurd (cc)
      read (some lines) e =
          let (found, e1, e2) = >>=-inv (rows_of_lines artifacts series lines) _ e in
          some_rows found (rows_of_lines-AreRows series lines found e1) e2

-- Some row opens within the requested range.
abbrev pub HasRowIn : BacktestRunRequest → List DecisionBar → Type 0
HasRowIn request rows =
    (row : DecisionBar) × In row rows
    × (request.event_from ≤ row.bar_open_ts)
    × (row.bar_open_ts < request.event_to)

pub any_in_range-HasRowIn :
    (request : BacktestRunRequest) (rows : List DecisionBar)
    → any_in_range request rows ≡ true
    → HasRowIn request rows
unfolding any_in_range
any_in_range-HasRowIn request [] h = cc
any_in_range-HasRowIn request (row ∷ rows) h = elim (Bool-cases (in_range request row)) [
  | inl e ↦ (row, inl refl, ground arith, ground arith)
  | inr e ↦
      let (found, i, low, high) = any_in_range-HasRowIn request rows (ground arith) in
      (found, inr i, low, high)
]
