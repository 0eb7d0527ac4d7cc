-- ===== src/Backtest/Strategy.antt =====
-- backtest/strategies.py: the moving-average crossover.
pub mod Decisions
use bisfin.Base.{ℕ, List, map, ltb, length, last_n, if◌then◌else◌}
use bisfin.Decimal.{Decimal, dec, div, lt, is_zero, sum_from}
use bisfin.Backtest.Contracts.{
  DecisionBar, DecisionView, TargetPositionIntent, ReasonCode, sma_warmup, sma_cross_long,
  sma_cross_flat,
}

abbrev close_of : DecisionBar → Decimal
close_of b = b.close_price

-- `sum(closes[-n:]) / Decimal(n)`.
unfoldable pub moving_average : ℕ → List Decimal → Decimal
unfolding sum_from
moving_average n closes = div (sum_from (dec 0) (last_n n closes)) (dec n)

unfoldable pub crossover_quantity : ℕ → ℕ → Decimal → List Decimal → Decimal
unfolding moving_average
crossover_quantity fast slow target closes =
    if lt (div (sum_from (dec 0) closes) (dec slow)) (moving_average fast closes)
    then target
    else dec 0

abbrev reason_for : Decimal → ReasonCode
reason_for quantity = if is_zero quantity then sma_cross_flat else sma_cross_long

-- `SmaCrossLongFlatStrategy.decide`.
unfoldable pub decide : DecisionView → TargetPositionIntent
unfolding crossover_quantity
decide v =
    let slow = v.parameters.slow_window in
    let closes = map close_of (last_n slow v.visible_bars) in
    let crossed =
      crossover_quantity v.parameters.fast_window slow v.parameters.target_quantity closes in
    let warming = ltb (length v.visible_bars) slow in
    record {
      instrument_id = v.instrument_id;
      decision_ts = v.decision_ts;
      target_quantity = if warming then dec 0 else crossed;
      reason_code = if warming then sma_warmup else reason_for crossed;
    }
