-- ===== src/Backtest/Strategy/Decisions.antt =====
-- What `decide` of strategies.py chooses, and how much of the past it reads.
use bisfin.Decimal.{dec, is_zero}
use bisfin.Backtest.Contracts.{DecisionView, sma_warmup, sma_cross_flat, sma_cross_long}
use bisfin.Backtest.Strategy.{decide, crossover_quantity}
use bisfin.Base.{
  ◌≡◌, ◌≤◌, ◌<◌, ◌⊎◌, refl, ℕ, List, length, last_n, min, ltb, drop, if◌then◌else◌, arith,
  length-last_n, suc, ◌-◌, zero,
}

-- The list past its last `n` items plays no part: taking them twice is taking them once.
last_n-last_n {ℓ} : {A : Type ℓ} (n : ℕ) (xs : List A) → last_n n (last_n n xs) ≡ last_n n xs
last_n-last_n n xs = dropped (length (last_n n xs) - n) (omega (arith, length-last_n n xs))
  where
    dropped : (k : ℕ) → k ≡ 0 → drop k (last_n n xs) ≡ last_n n xs
    dropped zero h = refl
    dropped (suc k) h = absurd (omega arith)

-- A view that holds only the newest bars of the slow window is decided like the view of all bars.
pub decide_window :
    (v : DecisionView)
    → decide (record v { visible_bars = last_n v.parameters.slow_window v.visible_bars }) ≡ decide v
unfolding decide
decide_window v =
    let slow = v.parameters.slow_window in
    rw (last_n-last_n slow v.visible_bars, shorter (length-last_n slow v.visible_bars)) refl
  where
    shorter :
        length (last_n v.parameters.slow_window v.visible_bars)
          ≡ min v.parameters.slow_window (length v.visible_bars)
        → ltb (length (last_n v.parameters.slow_window v.visible_bars)) v.parameters.slow_window
          ≡ ltb (length v.visible_bars) v.parameters.slow_window
    shorter h = ground arith

-- With fewer bars than the slow window the target is zero and the reason SMA_WARMUP; with as many
-- or more it is the whole target or zero, and the reason SMA_CROSS_LONG or SMA_CROSS_FLAT says
-- which.
decide_cases :
    (v : DecisionView)
    → ((length v.visible_bars < v.parameters.slow_window)
        × ((decide v).target_quantity ≡ dec 0)
        × ((decide v).reason_code ≡ sma_warmup))
      ⊎ ((v.parameters.slow_window ≤ length v.visible_bars)
          × (((decide v).target_quantity ≡ v.parameters.target_quantity)
              ⊎ ((decide v).target_quantity ≡ dec 0))
          × ((decide v).reason_code
              ≡ (if is_zero (decide v).target_quantity then sma_cross_flat else sma_cross_long)))
unfolding decide crossover_quantity
decide_cases v = ground arith
