-- ===== src/Backtest/Trades.antt =====
-- `_closed_trade_pnls` and `_summary` of backtest/service.py: what the fills of a run earned.
pub mod Counts
pub mod Unmatched
use bisfin.Backtest.Errors.{BacktestError, sell_without_entry}
use bisfin.Backtest.Accounting.{buy, sell, PositionState}
use bisfin.Base.Result.{Result, ok, err, ◌>>=◌}
use bisfin.Backtest.Engine.{SimulationResult, SimulatedFill}
use bisfin.Decimal.{sum_from, Decimal, mul, add, sub, dec, div, is_positive, below_zero}
use bisfin.Base.{List, Option, ℕ, Bool, if◌then◌else◌, none, ◌∷◌, suc, ◌==◌, [], some, map, length}

-- `entries.pop(instrument_id, None)`: the entry, and the dict without it.
unfoldable pub entry_of : ℕ → List (ℕ × SimulatedFill) → Option SimulatedFill
entry_of i [] = none
entry_of i ((j, f) ∷ es) = let rest = entry_of i es in if j == i then some f else rest

unfoldable pub without_entry : ℕ → List (ℕ × SimulatedFill) → List (ℕ × SimulatedFill)
without_entry i [] = []
without_entry i ((j, f) ∷ es) =
    let rest = without_entry i es in if j == i then rest else (j, f) ∷ rest

abbrev with_entry : ℕ → SimulatedFill → List (ℕ × SimulatedFill) → List (ℕ × SimulatedFill)
with_entry i f [] = (i, f) ∷ []
with_entry i f ((j, g) ∷ es) = if j == i then (j, f) ∷ es else (j, g) ∷ with_entry i f es

abbrev cost_of : SimulatedFill → Decimal
cost_of f =
    add (add f.economics.commission_amount f.economics.slippage_amount) f.economics.tax_amount

abbrev trade_pnl : SimulatedFill → SimulatedFill → Decimal
trade_pnl entry exit =
    let gain =
      mul (sub exit.economics.execution_price entry.economics.execution_price)
        exit.economics.quantity in
    sub (sub gain (cost_of entry)) (cost_of exit)

abbrev sold_from : Option SimulatedFill → SimulatedFill → Result BacktestError Decimal
sold_from none exit = err sell_without_entry
sold_from (some entry) exit = ok (trade_pnl entry exit)

-- The loop over the fills.
unfoldable pub pnls_from :
    List (ℕ × SimulatedFill) → List SimulatedFill → Result BacktestError (List Decimal)
unfolding entry_of without_entry
pnls_from entries [] = ok []
pnls_from entries (f ∷ fs) =
    let i = f.order.signal.instrument_id in
    let opened = pnls_from (with_entry i f entries) fs in
    let closed = pnls_from (without_entry i entries) fs in
    elim f.economics.side [
      | buy ↦ opened
      | sell ↦ (do pnl ← sold_from (entry_of i entries) f; rest ← closed; ok (pnl ∷ rest))
    ]

unfoldable pub closed_trade_pnls : SimulationResult → Result BacktestError (List Decimal)
unfolding pnls_from
closed_trade_pnls s = pnls_from [] s.fills

-- The fields of the summary; `max_drawdown` is always zero.
pub record Summary : Type 0 where
  pub total_return : Decimal
  pub max_drawdown : Decimal
  pub trade_count : ℕ
  pub winning_trade_count : ℕ
  pub losing_trade_count : ℕ
  pub win_rate : Option Decimal
  pub gross_pnl_base : Decimal
  pub net_pnl_base : Decimal
  pub total_cost_base : Decimal
  pub realized_pnl_base : Decimal

unfoldable pub count_if : (Decimal → Bool) → List Decimal → ℕ
count_if p [] = 0
count_if p (x ∷ xs) = let rest = count_if p xs in if p x then suc rest else rest

abbrev realized_of : ℕ × PositionState → Decimal
realized_of e = e.1.realized_pnl

abbrev rate_of : ℕ → ℕ → Option Decimal
rate_of winning trades = if trades == 0 then none else some (div (dec winning) (dec trades))

-- `_summary`, for the request's initial capital; `initial * 0` is zero.
unfoldable pub summary : Decimal → Decimal → SimulationResult → Result BacktestError Summary
unfolding closed_trade_pnls count_if sum_from
summary initial final_equity s = do
  pnls ← closed_trade_pnls s
  let net_pnl = sub final_equity initial
  let total_cost = sum_from (dec 0) (map cost_of s.fills)
  let winning = count_if is_positive pnls
  ok (record {
    total_return = div net_pnl initial;
    max_drawdown = dec 0;
    trade_count = length pnls;
    winning_trade_count = winning;
    losing_trade_count = count_if below_zero pnls;
    win_rate = rate_of winning (length pnls);
    gross_pnl_base = add net_pnl total_cost;
    net_pnl_base = net_pnl;
    total_cost_base = total_cost;
    realized_pnl_base = sum_from (dec 0) (map realized_of s.positions);
  })
