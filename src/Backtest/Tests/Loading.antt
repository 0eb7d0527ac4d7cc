-- ===== src/Backtest/Tests/Loading.antt =====
-- A component of six lines, loaded for the three roles of the instrument of the run.
use bisfin.Base.{ℕ, zero, suc, ◌-◌, false, [], ◌∷◌, ◌≡◌, All, Option, none, some, refl}
use bisfin.Base.Result.{ok}
use bisfin.Base.Texts.{Text, codes, same_text}
use bisfin.Backtest.Contracts.{DecisionBar, has_duplicates}
use bisfin.Backtest.Selector.{sort_groups, group_from, select_rows}
use bisfin.Backtest.Engine.Decisions.{AreBuilt}
use bisfin.Backtest.Loading.{Artifacts, RoleSelectors, load_selectors}
use bisfin.Backtest.Loading.Bound.{IsBound, load_selectors-IsBound}
use bisfin.Repositories.Snapshots.{SnapshotComponentResult}
use bisfin.Backtest.Tests.{bar, request, selector}

-- The stand-in for the decoder reads the code of the line's first letter.
abbrev decoded_line : Text → Option DecisionBar
decoded_line [] = none
decoded_line (c ∷ cs) = nth_bar (c - 97)
  where
    nth_bar : ℕ → Option DecisionBar
    nth_bar zero = some (bar 0 1 5 10)
    nth_bar (suc zero) = some (bar 10 1 15 12)
    nth_bar (suc (suc zero)) = some (bar 20 1 25 13)
    nth_bar (suc (suc (suc zero))) = some (bar 30 1 35 9)
    nth_bar (suc (suc (suc (suc zero)))) = some (bar 20 2 36 14)
    nth_bar (suc (suc (suc (suc (suc n))))) = some (bar 40 1 45 8)

abbrev artifacts : Artifacts
artifacts = record {
  lines = λ uri. some (codes "a" ∷ codes "b" ∷ codes "c" ∷ codes "d" ∷ codes "e" ∷ codes "f" ∷ []);
  decode = decoded_line;
}

abbrev component : SnapshotComponentResult
component = record {
  component_key = codes "daily";
  bar_series_id = 7;
  feed_id = 3;
  event_from = 0;
  event_to = 100;
  max_available_at = some 45;
  max_system_available_at = some 45;
  row_count = 6;
  component_sha256 = codes "cd";
  storage_uri = codes "file";
}

abbrev role_selectors : RoleSelectors
role_selectors = record {
  signal = (1, selector) ∷ [];
  execution = (1, selector) ∷ [];
  valuation = (1, selector) ∷ [];
}

loaded : load_selectors artifacts request (component ∷ []) ≡ ok role_selectors
unfolding load_selectors select_rows same_text sort_groups group_from
loaded = refl

no_duplicates : has_duplicates request.instruments ≡ false
unfolding has_duplicates
no_duplicates = refl

load_selectors-IsBound_example :
    All (IsBound artifacts request (component ∷ []) role_selectors) request.instruments
    × AreBuilt role_selectors.signal
    × AreBuilt role_selectors.execution
    × AreBuilt role_selectors.valuation
load_selectors-IsBound_example =
    load_selectors-IsBound artifacts request (component ∷ []) role_selectors no_duplicates loaded
