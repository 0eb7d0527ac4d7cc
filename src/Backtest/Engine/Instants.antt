-- ===== src/Backtest/Engine/Instants.antt =====
-- The instants of `simulate` in backtest/engine.py: those of the decision events, with which its loop
-- starts, and those at which a bar becomes visible.
use bisfin.Backtest.Engine.Records.{DecisionEvent, Simulation}
use bisfin.Backtest.Engine.Events.{Selectors, elem}
use bisfin.Base.{ℕ, suc, ◌+◌, List, [], ◌∷◌, ◌++◌, leb, length, map, if◌then◌else◌}
use bisfin.Base.Sort.{sorted}
use bisfin.Backtest.Contracts.{DecisionBar}
use bisfin.Backtest.Accounting.{LongOnlyPortfolio}
use bisfin.Backtest.Selector.{Group}

abbrev pub timestamp : DecisionEvent → ℕ
timestamp e = e.decision_ts

unfoldable pub distinct : List ℕ → List ℕ
distinct [] = []
distinct (t ∷ ts) = if elem t ts then distinct ts else t ∷ distinct ts

-- `sorted({item[0] for item in decision_events})`.
unfoldable pub event_times : List DecisionEvent → List ℕ
unfolding distinct sorted
event_times events = sorted leb (distinct (map timestamp events))

abbrev pub visibility : DecisionBar → ℕ
visibility b = b.effective_available_at

unfoldable pub group_visibilities : List Group → List ℕ
group_visibilities [] = []
group_visibilities ((k, rows) ∷ gs) = map visibility rows ++ group_visibilities gs

-- Every instant at which a row of the selectors becomes visible.
unfoldable pub visibilities : Selectors → List ℕ
unfolding group_visibilities
visibilities [] = []
visibilities ((i, s) ∷ ss) = group_visibilities s.rows_by_open ++ visibilities ss

-- More rounds than the loop can take: one for each decision instant and each visibility.
abbrev pub rounds_for : List DecisionEvent → Selectors → ℕ
rounds_for events execution = suc (length (event_times events) + length (visibilities execution))

abbrev pub start : LongOnlyPortfolio → List DecisionEvent → Simulation
start portfolio events = record {
  portfolio = portfolio;
  pending = [];
  decisions = [];
  signals = [];
  orders = [];
  fills = [];
  all_times = event_times events;
  index = 0;
}
