-- ===== src/Backtest/Loading/Bound.antt =====
-- What `_load_selectors` of backtest/service.py binds to the instruments of a request.
use bisfin.Backtest.Loading.Selected.{IsSelectorOf, IsPut, load_instrument-IsPut}
use bisfin.Base.{
  ℕ, ◌≡◌, ◌≢◌, refl, false, List, [], ◌∷◌, All, arith, ◌==◌, if◌then◌else◌, subst, Bool-cases, inl,
  inr, ◌∙◌,
}
use bisfin.Base.Result.{ok, >>=-inv, ok_injective}
use bisfin.Backtest.Contracts.{
  BacktestRunRequest, RunInstrumentSpec, DecisionBar, has_instrument, has_duplicates,
}
use bisfin.Backtest.Selector.{ArtifactBarSelector, select_rows}
use bisfin.Backtest.Engine.{Selectors, selector_for}
use bisfin.Backtest.Engine.Decisions.{AreBuilt}
use bisfin.Backtest.Loading.{
  Artifacts, RoleSelectors, put_selector, load_instrument, load_instruments, load_selectors,
}
use bisfin.Repositories.Snapshots.{SnapshotComponentResult}

selector_for-put_selector :
    (i j : ℕ) (s : ArtifactBarSelector) (ss : Selectors)
    → selector_for j (put_selector i s ss) ≡ (if i == j then ok s else selector_for j ss)
unfolding selector_for put_selector
selector_for-put_selector i j s [] = refl
selector_for-put_selector i j s ((k, t) ∷ ss) = ground (arith, selector_for-put_selector i j s ss)

put_selector-AreBuilt :
    (i : ℕ) (s : ArtifactBarSelector) (ss : Selectors)
    → (rows : List DecisionBar) × (select_rows rows ≡ ok s)
    → AreBuilt ss
    → AreBuilt (put_selector i s ss)
unfolding put_selector
put_selector-AreBuilt i s [] b h = (b, tt)
put_selector-AreBuilt i s ((j, t) ∷ ss) b h = elim (Bool-cases (j == i)) [
  | inl e ↦ rw e (b, h.1)
  | inr e ↦ rw e (h.0, put_selector-AreBuilt i s ss b h.1)
]

AllBuilt : RoleSelectors → Type 0
AllBuilt ss = AreBuilt ss.signal × AreBuilt ss.execution × AreBuilt ss.valuation

module _ (artifacts : Artifacts) (request : BacktestRunRequest)
    (components : List SnapshotComponentResult) where
  -- In each role the instrument has a selector of the component that it names for the role.
  pub record IsBound (ss : RoleSelectors) (x : RunInstrumentSpec) : Type 0 where
    pub signal : ArtifactBarSelector
    pub signal_found : selector_for x.instrument_id ss.signal ≡ ok signal
    pub signal_lem : IsSelectorOf artifacts request components x.signal_component_key signal
    pub execution : ArtifactBarSelector
    pub execution_found : selector_for x.instrument_id ss.execution ≡ ok execution
    pub execution_lem :
        IsSelectorOf artifacts request components x.execution_component_key execution
    pub valuation : ArtifactBarSelector
    pub valuation_found : selector_for x.instrument_id ss.valuation ≡ ok valuation
    pub valuation_lem :
        IsSelectorOf artifacts request components x.valuation_component_key valuation

  IsPut-AllBuilt :
      (x : RunInstrumentSpec) (ss ts : RoleSelectors)
      → IsPut artifacts request components x ss ts
      → AllBuilt ss
      → AllBuilt ts
  unfolding AllBuilt
  IsPut-AllBuilt x ss ts p (a, b, c) = rw p.after (
    put_selector-AreBuilt x.instrument_id p.signal ss.signal (p.signal_lem.rows, p.signal_lem.built)
        a,
    put_selector-AreBuilt x.instrument_id p.execution ss.execution
        (p.execution_lem.rows, p.execution_lem.built) b,
    put_selector-AreBuilt x.instrument_id p.valuation ss.valuation
        (p.valuation_lem.rows, p.valuation_lem.built) c,
  )

  IsPut-IsBound :
      (x : RunInstrumentSpec) (ss ts : RoleSelectors)
      → IsPut artifacts request components x ss ts
      → IsBound ts x
  IsPut-IsBound x ss ts p = record {
    signal = p.signal;
    signal_found = rw p.after (found p.signal ss.signal);
    signal_lem = p.signal_lem;
    execution = p.execution;
    execution_found = rw p.after (found p.execution ss.execution);
    execution_lem = p.execution_lem;
    valuation = p.valuation;
    valuation_found = rw p.after (found p.valuation ss.valuation);
    valuation_lem = p.valuation_lem;
  }
    where
      found :
          (s : ArtifactBarSelector) (old : Selectors)
          → selector_for x.instrument_id (put_selector x.instrument_id s old) ≡ ok s
      found s old = ground (arith, selector_for-put_selector x.instrument_id x.instrument_id s old)

  -- The selectors of another instrument stay.
  IsPut-keeps :
      (x y : RunInstrumentSpec) (ss ts : RoleSelectors)
      → IsPut artifacts request components x ss ts
      → x.instrument_id ≢ y.instrument_id
      → IsBound ss y
      → IsBound ts y
  IsPut-keeps x y ss ts p ne b = record {
    signal = b.signal;
    signal_found = rw p.after (kept p.signal ss.signal ∙ b.signal_found);
    signal_lem = b.signal_lem;
    execution = b.execution;
    execution_found = rw p.after (kept p.execution ss.execution ∙ b.execution_found);
    execution_lem = b.execution_lem;
    valuation = b.valuation;
    valuation_found = rw p.after (kept p.valuation ss.valuation ∙ b.valuation_found);
    valuation_lem = b.valuation_lem;
  }
    where
      kept :
          (s : ArtifactBarSelector) (old : Selectors)
          → selector_for y.instrument_id (put_selector x.instrument_id s old)
            ≡ selector_for y.instrument_id old
      kept s old = ground (arith, selector_for-put_selector x.instrument_id y.instrument_id s old)

  load_instruments-keeps :
      (xs : List RunInstrumentSpec) (y : RunInstrumentSpec) (ss ts : RoleSelectors)
      → has_instrument y.instrument_id xs ≡ false
      → load_instruments artifacts request components xs ss ≡ ok ts
      → IsBound ss y
      → IsBound ts y
  unfolding load_instruments has_instrument
  load_instruments-keeps [] y ss ts n h b =
      subst (λ (us : RoleSelectors). IsBound us y) (ok_injective h) b
  load_instruments-keeps (x ∷ xs) y ss ts n h b =
      let (us, one, rest) = >>=-inv (load_instrument artifacts request components x ss) _ h in
      load_instruments-keeps xs y us ts (ground arith) rest (
        IsPut-keeps x y ss us (load_instrument-IsPut artifacts request components x ss us one)
          (ground arith) b)

  load_instruments-AllBuilt :
      (xs : List RunInstrumentSpec) (ss ts : RoleSelectors)
      → load_instruments artifacts request components xs ss ≡ ok ts
      → AllBuilt ss
      → AllBuilt ts
  unfolding load_instruments
  load_instruments-AllBuilt [] ss ts h b = subst AllBuilt (ok_injective h) b
  load_instruments-AllBuilt (x ∷ xs) ss ts h b =
      let (us, one, rest) = >>=-inv (load_instrument artifacts request components x ss) _ h in
      load_instruments-AllBuilt xs us ts rest
        (IsPut-AllBuilt x ss us (load_instrument-IsPut artifacts request components x ss us one) b)

  load_instruments-IsBound :
      (xs : List RunInstrumentSpec) (ss ts : RoleSelectors)
      → has_duplicates xs ≡ false
      → load_instruments artifacts request components xs ss ≡ ok ts
      → All (IsBound ts) xs
  unfolding load_instruments has_duplicates
  load_instruments-IsBound [] ss ts d h = tt
  load_instruments-IsBound (x ∷ xs) ss ts d h =
      let (us, one, rest) = >>=-inv (load_instrument artifacts request components x ss) _ h in
      (
        load_instruments-keeps xs x us ts (ground arith) rest (
            IsPut-IsBound x ss us (load_instrument-IsPut artifacts request components x ss us one)),
        load_instruments-IsBound xs us ts (ground arith) rest,
      )

-- If the selectors of a request without duplicate instruments are loaded, then in each of the three
-- roles each instrument has the selector of exactly the rows that the artifact of its component for
-- that role holds; these rows are of the component's series, have a revision number of at least one,
-- and reach into the requested range. All selectors are built from rows.
pub load_selectors-IsBound :
    (artifacts : Artifacts) (request : BacktestRunRequest)
    (components : List SnapshotComponentResult) (ss : RoleSelectors)
    → has_duplicates request.instruments ≡ false
    → load_selectors artifacts request components ≡ ok ss
    → All (IsBound artifacts request components ss) request.instruments
      × AreBuilt ss.signal
      × AreBuilt ss.execution
      × AreBuilt ss.valuation
unfolding load_selectors AllBuilt
load_selectors-IsBound artifacts request components ss d h =
    let none_yet : RoleSelectors = record { signal = []; execution = []; valuation = [] } in
    let built =
      load_instruments-AllBuilt artifacts request components request.instruments none_yet ss h
        (tt, tt, tt) in
    (
      load_instruments-IsBound artifacts request components request.instruments none_yet ss d h,
      built.0,
      built.1,
      built.2,
    )
