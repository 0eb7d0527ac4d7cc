-- ===== src/Backtest/Loading.antt =====
-- `_load_selectors` of backtest/service.py and `load_artifact_bars` of backtest/snapshot_data.py: the
-- rows of the frozen components that a run reads. The files of an artifact and the decoding of a line
-- are parameters; a negative revision number, which a `DecisionBar` here cannot hold, counts among
-- the rows that are not decoded.
pub mod Rows
pub mod Selected
pub mod Bound
use Prim.Native.String.{String}
use bisfin.Base.{
  ℕ, Bool, false, true, Option, none, some, List, [], ◌∷◌, ◌==◌, ◌||◌, ◌&&◌, not, leb, ltb,
  if◌then◌else◌,
}
use bisfin.Base.Result.{Result, ok, err, raise_if, ◌>>=◌, ◌>>◌}
use bisfin.Base.Texts.{Text, codes, same_text}
use bisfin.Backtest.Errors.{
  BacktestError, artifact_unavailable, blank_row, invalid_row, series_mismatch, invalid_revision,
  no_rows, unknown_component, component_outside_range,
}
use bisfin.Backtest.Contracts.{BacktestRunRequest, RunInstrumentSpec, DecisionBar}
use bisfin.Backtest.Selector.{ArtifactBarSelector, select_rows}
use bisfin.Backtest.Engine.{Selectors}
use bisfin.Repositories.Snapshots.{SnapshotComponentResult}

-- What is outside: the lines of a file by its URI, if it can be read, and the bar of a line.
pub record Artifacts : Type 0 where
  pub lines : Text → Option (List Text)
  pub decode : Text → Option DecisionBar

-- `component_by_key.get(key)` of a dict by the keys, in which the last component of a key stays.
unfoldable pub component_for :
    String → List SnapshotComponentResult → Option SnapshotComponentResult
component_for key [] = none
component_for key (c ∷ cs) =
    let rest = component_for key cs in
    elim rest [
      | some d ↦ some d
      | none ↦ if same_text c.component_key (codes key) then some c else none
    ]

abbrev known : Option SnapshotComponentResult → Result BacktestError SnapshotComponentResult
known none = err unknown_component
known (some c) = ok c

abbrev in_range : BacktestRunRequest → DecisionBar → Bool
in_range request row =
    leb request.event_from row.bar_open_ts && ltb row.bar_open_ts request.event_to

pub any_in_range : BacktestRunRequest → List DecisionBar → Bool
any_in_range request [] = false
any_in_range request (row ∷ rows) = in_range request row || any_in_range request rows

-- The mappings from instruments to selectors, one for each role.
pub record RoleSelectors : Type 0 where
  pub signal : Selectors
  pub execution : Selectors
  pub valuation : Selectors

-- `selectors[role][instrument_id] = selector`.
unfoldable pub put_selector : ℕ → ArtifactBarSelector → Selectors → Selectors
put_selector i s [] = (i, s) ∷ []
put_selector i s ((j, t) ∷ ss) = if j == i then (i, s) ∷ ss else (j, t) ∷ put_selector i s ss

abbrev decoded : Option DecisionBar → Result BacktestError DecisionBar
decoded none = err invalid_row
decoded (some bar) = ok bar

abbrev is_blank : Text → Bool
is_blank [] = true
is_blank (c ∷ cs) = false

abbrev nonempty : List DecisionBar → Result BacktestError (List DecisionBar)
nonempty [] = err no_rows
nonempty (row ∷ rows) = ok (row ∷ rows)

module _ (artifacts : Artifacts) where
  -- The loop over the lines.
  unfoldable pub rows_of_lines : ℕ → List Text → Result BacktestError (List DecisionBar)
  rows_of_lines series [] = ok []
  rows_of_lines series (line ∷ lines) = do
    raise_if (is_blank line) blank_row
    bar ← decoded (artifacts.decode line)
    raise_if (not (bar.bar_series_id == series)) series_mismatch
    raise_if (ltb bar.revision_no 1) invalid_revision
    rows ← rows_of_lines series lines
    ok (bar ∷ rows)

  abbrev rows_of_file : ℕ → Option (List Text) → Result BacktestError (List DecisionBar)
  rows_of_file series none = err artifact_unavailable
  rows_of_file series (some lines) = do rows ← rows_of_lines series lines; nonempty rows

  unfoldable pub load_artifact_bars : Text → ℕ → Result BacktestError (List DecisionBar)
  unfolding rows_of_lines
  load_artifact_bars storage_uri series = rows_of_file series (artifacts.lines storage_uri)

  -- The selector of one role of one instrument.
  unfoldable pub load_selector :
      BacktestRunRequest
      → List SnapshotComponentResult
      → String
      → Result BacktestError ArtifactBarSelector
  unfolding load_artifact_bars component_for any_in_range
  load_selector request components key = do
    component ← known (component_for key components)
    rows ← load_artifact_bars component.storage_uri component.bar_series_id
    raise_if (not (any_in_range request rows)) component_outside_range
    select_rows rows

  -- The three roles of one instrument, in the order of the dict `bindings`.
  unfoldable pub load_instrument :
      BacktestRunRequest
      → List SnapshotComponentResult
      → RunInstrumentSpec
      → RoleSelectors
      → Result BacktestError RoleSelectors
  unfolding load_selector put_selector
  load_instrument request components x ss = do
    signal ← load_selector request components x.signal_component_key
    execution ← load_selector request components x.execution_component_key
    valuation ← load_selector request components x.valuation_component_key
    ok (record {
      signal = put_selector x.instrument_id signal ss.signal;
      execution = put_selector x.instrument_id execution ss.execution;
      valuation = put_selector x.instrument_id valuation ss.valuation;
    })

  unfoldable pub load_instruments :
      BacktestRunRequest
      → List SnapshotComponentResult
      → List RunInstrumentSpec
      → RoleSelectors
      → Result BacktestError RoleSelectors
  unfolding load_instrument
  load_instruments request components [] ss = ok ss
  load_instruments request components (x ∷ xs) ss = do
    ss' ← load_instrument request components x ss
    load_instruments request components xs ss'

  -- `_load_selectors`.
  unfoldable pub load_selectors :
      BacktestRunRequest → List SnapshotComponentResult → Result BacktestError RoleSelectors
  unfolding load_instruments
  load_selectors request components =
      load_instruments request components request.instruments
        (record { signal = []; execution = []; valuation = [] })
