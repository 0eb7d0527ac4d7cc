-- ===== src/Backtest/Loading/Selected.antt =====
-- The selectors that `_load_selectors` of backtest/service.py loads for one instrument.
use Prim.Native.String.{String}
use bisfin.Base.{◌≡◌, refl, not, some, none, Option, List, All, arith, sym}
use bisfin.Base.Result.{ok, >>=-inv, ok_injective, raise_if-inv}
use bisfin.Backtest.Errors.{component_outside_range}
use bisfin.Backtest.Contracts.{BacktestRunRequest, RunInstrumentSpec, DecisionBar}
use bisfin.Backtest.Selector.{ArtifactBarSelector, select_rows}
use bisfin.Backtest.Loading.{
  Artifacts, RoleSelectors, put_selector, component_for, known, load_artifact_bars, any_in_range,
  load_selector, load_instrument,
}
use bisfin.Backtest.Loading.Rows.{
  IsRowOf, HasRowIn, load_artifact_bars-AreRows, any_in_range-HasRowIn,
}
use bisfin.Repositories.Snapshots.{SnapshotComponentResult}

module _ (artifacts : Artifacts) (request : BacktestRunRequest)
    (components : List SnapshotComponentResult) where
  -- A selector of the rows of the component with the key, which are all of its series and reach into
  -- the requested range.
  pub record IsSelectorOf (key : String) (s : ArtifactBarSelector) : Type 0 where
    pub component : SnapshotComponentResult
    pub found : component_for key components ≡ some component
    pub rows : List DecisionBar
    pub loaded :
        load_artifact_bars artifacts component.storage_uri component.bar_series_id ≡ ok rows
    pub rows_lem : All (IsRowOf component.bar_series_id) rows
    pub in_range : HasRowIn request rows
    pub built : select_rows rows ≡ ok s

  known-inv :
      (o : Option SnapshotComponentResult) (c : SnapshotComponentResult)
      → known o ≡ ok c
      → o ≡ some c
  known-inv none c h = absurd (cc)
  known-inv (some d) c h = rw (ok_injective h) refl

  load_selector-IsSelectorOf :
      (key : String) (s : ArtifactBarSelector)
      → load_selector artifacts request components key ≡ ok s
      → IsSelectorOf key s
  unfolding load_selector
  load_selector-IsSelectorOf key s h =
      let (c, found, h1) = >>=-inv (known (component_for key components)) _ h in
      let (rows, loaded, h2) =
        >>=-inv (load_artifact_bars artifacts c.storage_uri c.bar_series_id) _ h1 in
      let (within, h3) =
        raise_if-inv (not (any_in_range request rows)) component_outside_range (select_rows rows)
          h2 in
      record {
        component = c;
        found = known-inv (component_for key components) c found;
        rows = rows;
        loaded = loaded;
        rows_lem = load_artifact_bars-AreRows artifacts c.storage_uri c.bar_series_id rows loaded;
        in_range = any_in_range-HasRowIn request rows (ground arith);
        built = h3;
      }

  -- What the loading of one instrument does: three selectors are put in.
  pub record IsPut (x : RunInstrumentSpec) (ss ts : RoleSelectors) : Type 0 where
    pub signal : ArtifactBarSelector
    pub signal_lem : IsSelectorOf x.signal_component_key signal
    pub execution : ArtifactBarSelector
    pub execution_lem : IsSelectorOf x.execution_component_key execution
    pub valuation : ArtifactBarSelector
    pub valuation_lem : IsSelectorOf x.valuation_component_key valuation
    pub after : ts ≡ record {
      signal = put_selector x.instrument_id signal ss.signal;
      execution = put_selector x.instrument_id execution ss.execution;
      valuation = put_selector x.instrument_id valuation ss.valuation;
    }

  pub load_instrument-IsPut :
      (x : RunInstrumentSpec) (ss ts : RoleSelectors)
      → load_instrument artifacts request components x ss ≡ ok ts
      → IsPut x ss ts
  unfolding load_instrument
  load_instrument-IsPut x ss ts h =
      let (s, h1, k1) =
        >>=-inv (load_selector artifacts request components x.signal_component_key) _ h in
      let (e, h2, k2) =
        >>=-inv (load_selector artifacts request components x.execution_component_key) _ k1 in
      let (v, h3, k3) =
        >>=-inv (load_selector artifacts request components x.valuation_component_key) _ k2 in
      record {
        signal = s;
        signal_lem = load_selector-IsSelectorOf x.signal_component_key s h1;
        execution = e;
        execution_lem = load_selector-IsSelectorOf x.execution_component_key e h2;
        valuation = v;
        valuation_lem = load_selector-IsSelectorOf x.valuation_component_key v h3;
        after = sym (ok_injective k3);
      }
