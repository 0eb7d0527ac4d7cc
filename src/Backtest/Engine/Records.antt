-- ===== src/Backtest/Engine/Records.antt =====
-- The records of backtest/engine.py.
pub use bisfin.Base.Texts.{Text}
use bisfin.Base.{ℕ, Option, List}
use bisfin.Decimal.{Decimal}
use bisfin.Backtest.Contracts.{DecisionBar, ReasonCode}
use bisfin.Backtest.Accounting.{OrderSide, PricedFill, PositionState, LongOnlyPortfolio}

pub record SimulatedDecision : Type 0 where
  pub sequence : ℕ
  pub instrument_id : ℕ
  pub decision_ts : ℕ
  pub trigger_bar : DecisionBar
  pub inputs : List DecisionBar
  pub state_sha256 : Text
  pub input_manifest_sha256 : Text

pub record SimulatedSignal : Type 0 where
  pub decision_sequence : ℕ
  pub instrument_id : ℕ
  pub signal_ts : ℕ
  pub target_quantity : Decimal
  pub reason_code : ReasonCode
  pub trigger_bar : DecisionBar

pub data RejectedReason : Type 0 where
  no_eligible_execution_bar : RejectedReason

pub record SimulatedOrder : Type 0 where
  pub semantic_key : Text
  pub signal : SimulatedSignal
  pub side : OrderSide
  pub quantity : Decimal
  pub submitted_at : ℕ
  pub execution_bar : Option DecisionBar
  pub rejected_reason : Option RejectedReason

pub record SimulatedFill : Type 0 where
  pub order : SimulatedOrder
  pub fill_ts : ℕ
  pub reference_bar : DecisionBar
  pub reference_price : Decimal
  pub economics : PricedFill

pub record SimulatedValuation : Type 0 where
  pub instrument_id : ℕ
  pub snapshot_ts : ℕ
  pub reference_bar : DecisionBar
  pub quantity : Decimal
  pub average_cost : Decimal
  pub realized_pnl : Decimal
  pub market_value : Decimal
  pub unrealized_pnl : Decimal

pub record SimulationResult : Type 0 where
  pub decisions : List SimulatedDecision
  pub signals : List SimulatedSignal
  pub orders : List SimulatedOrder
  pub fills : List SimulatedFill
  pub cash : Decimal
  pub positions : List (ℕ × PositionState)
  pub valuations : List SimulatedValuation
  pub equity_base : Decimal

-- A tuple of `_decision_events`: the instant, the instrument and the bar that triggers it.
pub record DecisionEvent : Type 0 where
  pub decision_ts : ℕ
  pub instrument_id : ℕ
  pub trigger_bar : DecisionBar

-- The local variables of `simulate`.
pub record Simulation : Type 0 where
  pub portfolio : LongOnlyPortfolio
  pub pending : List (ℕ × List SimulatedOrder)
  pub decisions : List SimulatedDecision
  pub signals : List SimulatedSignal
  pub orders : List SimulatedOrder
  pub fills : List SimulatedFill
  pub all_times : List ℕ
  pub index : ℕ
