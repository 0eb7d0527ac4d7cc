-- ===== src/Backtest/Contracts.antt =====
-- backtest/contracts.py: the validated request and the views that a strategy reads.
-- Timestamps are microseconds; the pydantic conversions from JSON values are not modelled.
use text.Mathlib.Text.{◌==◌ as text_eq}
use Prim.Native.String.{String}
use bisfin.Base.{
  ℕ, Bool, true, false, Option, none, some, List, [], ◌∷◌, ◌==◌, ltb, not, ◌&&◌, ◌||◌,
  if◌then◌else◌,
}
use bisfin.Base.Int.{ℤ, pos, ltb_ℤ, pos_part}
use bisfin.Base.Result.{Result, ok, err, raise_if, ◌>>◌}
use bisfin.Decimal.{Decimal, is_positive, below_zero}
use bisfin.Backtest.Errors.{
  BacktestError, wrong_parameter_names, windows_not_integers, windows_out_of_order,
  nonpositive_target, negative_bps, nonpositive_capital, unsupported_schema, empty_event_range,
  no_instruments, duplicate_instruments,
}

-- A value of `parameters: dict[str, Decimal | int]`.
pub data Parameter : Type 0 where
  int : ℤ → Parameter
  decimal : Decimal → Parameter

pub record SmaParameters : Type 0 where
  pub fast_window : ℕ
  pub slow_window : ℕ
  pub target_quantity : Decimal

lookup : String → List (String × Parameter) → Option Parameter
lookup k [] = none
lookup k ((j, v) ∷ ps) = if text_eq j k then some v else lookup k ps

abbrev is_expected : String → Bool
is_expected k = text_eq k "fast_window" || text_eq k "slow_window" || text_eq k "target_quantity"

all_expected : List (String × Parameter) → Bool
all_expected [] = true
all_expected ((k, v) ∷ ps) = is_expected k && all_expected ps

abbrev target_parameter : ℕ → ℕ → Parameter → Result BacktestError SmaParameters
target_parameter fast slow (int z) = err nonpositive_target
target_parameter fast slow (decimal q) =
    if is_positive q
    then ok (record { fast_window = fast; slow_window = slow; target_quantity = q })
    else err nonpositive_target

abbrev window_parameters : Parameter → Parameter → Parameter → Result BacktestError SmaParameters
window_parameters (int fast) (int slow) quantity =
    if ltb_ℤ fast (pos 1) || ltb_ℤ slow (pos 1) || not (ltb_ℤ fast slow)
    then err windows_out_of_order
    else target_parameter (pos_part fast) (pos_part slow) quantity
window_parameters (decimal _) slow quantity = err windows_not_integers
window_parameters (int _) (decimal _) quantity = err windows_not_integers

abbrev three_parameters :
    Option Parameter → Option Parameter → Option Parameter → Result BacktestError SmaParameters
three_parameters (some fast) (some slow) (some quantity) = window_parameters fast slow quantity
three_parameters none slow quantity = err wrong_parameter_names
three_parameters (some _) none quantity = err wrong_parameter_names
three_parameters (some _) (some _) none = err wrong_parameter_names

-- `validate_sma_parameters`, with the three values that the strategy reads afterwards.
unfoldable pub validate_sma_parameters :
    List (String × Parameter) → Result BacktestError SmaParameters
unfolding lookup all_expected
validate_sma_parameters ps =
    if all_expected ps
    then three_parameters (lookup "fast_window" ps) (lookup "slow_window" ps)
        (lookup "target_quantity" ps)
    else err wrong_parameter_names

pub record TransactionCostModelSpec : Type 0 where
  pub commission_bps : Decimal
  pub slippage_bps : Decimal
  pub sell_tax_bps : Decimal

unfoldable pub validate_non_negative_bps :
    TransactionCostModelSpec → Result BacktestError TransactionCostModelSpec
validate_non_negative_bps c =
    if below_zero c.commission_bps || below_zero c.slippage_bps || below_zero c.sell_tax_bps
    then err negative_bps
    else ok c

pub record RunInstrumentSpec : Type 0 where
  pub instrument_id : ℕ
  pub signal_component_key : String
  pub execution_component_key : String
  pub valuation_component_key : String
  pub execution_lag_seconds : ℕ

pub record BacktestRunRequest : Type 0 where
  pub schema_version : ℕ
  pub event_from : ℕ
  pub event_to : ℕ
  pub initial_capital : Decimal
  pub strategy : SmaParameters
  pub transaction_cost_model : TransactionCostModelSpec
  pub instruments : List RunInstrumentSpec

unfoldable pub has_instrument : ℕ → List RunInstrumentSpec → Bool
has_instrument i [] = false
has_instrument i (x ∷ xs) = (x.instrument_id == i) || has_instrument i xs

-- `len({item.instrument_id …}) != len(instruments)`: an identifier stands twice.
unfoldable pub has_duplicates : List RunInstrumentSpec → Bool
unfolding has_instrument
has_duplicates [] = false
has_duplicates (x ∷ xs) = has_instrument x.instrument_id xs || has_duplicates xs

abbrev is_empty : List RunInstrumentSpec → Bool
is_empty [] = true
is_empty (x ∷ xs) = false

-- `validate_initial_capital`, then `validate_request`.
unfoldable pub validate_request : BacktestRunRequest → Result BacktestError BacktestRunRequest
unfolding has_duplicates
validate_request r = do
  raise_if (not (is_positive r.initial_capital)) nonpositive_capital
  raise_if (not (r.schema_version == 1)) unsupported_schema
  raise_if (not (ltb r.event_from r.event_to)) empty_event_range
  raise_if (is_empty r.instruments) no_instruments
  raise_if (has_duplicates r.instruments) duplicate_instruments
  ok r

-- The parts of `DecisionBar` that the engine reads.
pub record DecisionBar : Type 0 where
  pub bar_open_ts : ℕ
  pub bar_series_id : ℕ
  pub revision_no : ℕ
  pub available_at : ℕ
  pub system_available_at : ℕ
  pub effective_available_at : ℕ
  pub close_price : Decimal

pub data ReasonCode : Type 0 where
  sma_warmup sma_cross_long sma_cross_flat : ReasonCode

pub record TargetPositionIntent : Type 0 where
  pub instrument_id : ℕ
  pub decision_ts : ℕ
  pub target_quantity : Decimal
  pub reason_code : ReasonCode

pub record DecisionView : Type 0 where
  pub instrument_id : ℕ
  pub decision_ts : ℕ
  pub visible_bars : List DecisionBar
  pub current_quantity : Decimal
  pub average_cost : Decimal
  pub realized_pnl : Decimal
  pub cash : Decimal
  pub parameters : SmaParameters
