-- ===== src/Backtest/Engine/Events.antt =====
-- The static methods of `ReferenceBacktestSimulator`: bindings, decision events and valuations.
use bisfin.Base.{
  ℕ, Bool, true, false, ◌&&◌, ◌||◌, Option, none, some, List, [], ◌∷◌, ◌++◌, ◌==◌, ltb, leb,
  if◌then◌else◌,
}
use bisfin.Base.Sort.{sorted}
use bisfin.Base.Result.{Result, ok, err, ◌>>=◌}
use bisfin.Decimal.{mul, sub}
use bisfin.Backtest.Errors.{BacktestError, key_error, no_visible_valuation_bar}
use bisfin.Backtest.Contracts.{BacktestRunRequest, RunInstrumentSpec, DecisionBar, has_instrument}
use bisfin.Backtest.Accounting.{LongOnlyPortfolio, position}
use bisfin.Backtest.Selector.{ArtifactBarSelector, decision_schedule, visible_bars}
use bisfin.Backtest.Engine.Records.{DecisionEvent, SimulatedValuation}

abbrev pub Selectors : Type 0
Selectors = List (ℕ × ArtifactBarSelector)

unfoldable pub selector_for : ℕ → Selectors → Result BacktestError ArtifactBarSelector
selector_for i [] = err key_error
selector_for i ((j, s) ∷ ss) = if j == i then ok s else selector_for i ss

unfoldable pub instrument_for : ℕ → List RunInstrumentSpec → Result BacktestError RunInstrumentSpec
instrument_for i [] = err key_error
instrument_for i (x ∷ xs) = if x.instrument_id == i then ok x else instrument_for i xs

has_selector : ℕ → Selectors → Bool
has_selector i [] = false
has_selector i ((j, s) ∷ ss) = (j == i) || has_selector i ss

all_bound : List RunInstrumentSpec → Selectors → Bool
unfolding has_selector
all_bound [] ss = true
all_bound (x ∷ xs) ss = has_selector x.instrument_id ss && all_bound xs ss

all_requested : List RunInstrumentSpec → Selectors → Bool
all_requested xs [] = true
all_requested xs ((j, s) ∷ ss) = has_instrument j xs && all_requested xs ss

-- `set(selectors) == {item.instrument_id for item in request.instruments}`.
unfoldable pub covers : List RunInstrumentSpec → Selectors → Bool
unfolding all_bound all_requested
covers xs ss = all_bound xs ss && all_requested xs ss

unfoldable pub elem : ℕ → List ℕ → Bool
elem t [] = false
elem t (u ∷ us) = (u == t) || elem t us

unfoldable pub get_elem? : List ℕ → ℕ → Option ℕ
get_elem? [] i = none
get_elem? (t ∷ ts) i = elim i [ ℕ.zero ↦ some t | ℕ.suc j ↦ get_elem? ts j ]

-- `triggers[bar_open_ts]` of a dict by open times: the last bar with that key.
trigger_for : ℕ → List DecisionBar → Result BacktestError DecisionBar
trigger_for k [] = err key_error
trigger_for k (b ∷ bs) = elim (trigger_for k bs) [
  | ok c ↦ ok c
  | err e ↦ if b.bar_open_ts == k then ok b else err e
]

abbrev event_at : ℕ → ℕ → DecisionBar → DecisionEvent
event_at ts i bar = record { decision_ts = ts; instrument_id = i; trigger_bar = bar }

-- The events of one instrument that fall in the requested range.
unfoldable pub events_of :
    BacktestRunRequest
    → ℕ
    → ArtifactBarSelector
    → List (ℕ × ℕ)
    → Result BacktestError (List DecisionEvent)
unfolding trigger_for
events_of r i selector [] = ok []
events_of r i selector ((ts, k) ∷ schedule) =
    let rest = events_of r i selector schedule in
    if leb r.event_from ts && ltb ts r.event_to
    then (do
      bar ← trigger_for k (visible_bars selector ts)
      events ← rest
      ok (event_at ts i bar ∷ events))
    else rest

abbrev lex : ℕ → ℕ → Bool → Bool
lex x y rest = ltb x y || (x == y) && rest

-- The key `(item[0], item[1], item[2].bar_series_id, item[2].bar_open_ts)`.
abbrev le_event : DecisionEvent → DecisionEvent → Bool
le_event x y = lex x.decision_ts y.decision_ts (
    lex x.instrument_id y.instrument_id (
      lex x.trigger_bar.bar_series_id y.trigger_bar.bar_series_id
        (leb x.trigger_bar.bar_open_ts y.trigger_bar.bar_open_ts)))

events_from :
    BacktestRunRequest
    → Selectors
    → List RunInstrumentSpec
    → Result BacktestError (List DecisionEvent)
unfolding events_of
events_from r ss [] = ok []
events_from r ss (x ∷ xs) = do
  selector ← selector_for x.instrument_id ss
  events ← events_of r x.instrument_id selector (decision_schedule selector)
  rest ← events_from r ss xs
  ok (events ++ rest)

-- `_decision_events`.
unfoldable pub decision_events :
    BacktestRunRequest → Selectors → Result BacktestError (List DecisionEvent)
unfolding events_from sorted
decision_events r ss = do events ← events_from r ss r.instruments; ok (sorted le_event events)

pub last_bar : List DecisionBar → Option DecisionBar
last_bar [] = none
last_bar (b ∷ []) = some b
last_bar (b ∷ c ∷ bs) = last_bar (c ∷ bs)

abbrev pub valuation_for :
    ℕ → ℕ → LongOnlyPortfolio → Option DecisionBar → Result BacktestError SimulatedValuation
valuation_for ts i p none = err no_visible_valuation_bar
valuation_for ts i p (some bar) =
    let state = position i p in
    ok (record {
      instrument_id = i;
      snapshot_ts = ts;
      reference_bar = bar;
      quantity = state.quantity;
      average_cost = state.average_cost;
      realized_pnl = state.realized_pnl;
      market_value = mul state.quantity bar.close_price;
      unrealized_pnl = mul (sub bar.close_price state.average_cost) state.quantity;
    })

-- `_final_valuations`.
unfoldable pub final_valuations :
    ℕ
    → LongOnlyPortfolio
    → Selectors
    → List RunInstrumentSpec
    → Result BacktestError (List SimulatedValuation)
unfolding selector_for last_bar
final_valuations event_to p ss [] = ok []
final_valuations event_to p ss (x ∷ xs) = do
  selector ← selector_for x.instrument_id ss
  v ← valuation_for event_to x.instrument_id p (last_bar (visible_bars selector event_to))
  vs ← final_valuations event_to p ss xs
  ok (v ∷ vs)
