-- ===== src/Backtest/Accounting/Movements.antt =====
-- What a fill that the portfolio of accounting.py books moves.
use bisfin.Base.{ℕ, ◌≡◌, inl, inr, arith, ◌==◌, if◌then◌else◌}
use bisfin.Base.Result.{ok, Result-cases}
use bisfin.Decimal.{Decimal, add, sub}
use bisfin.Backtest.Accounting.{
  OrderSide, buy, sell, PricedFill, cash_delta, PositionState, LongOnlyPortfolio, position, bought,
  sold, next_state, apply_fill,
}
use bisfin.Backtest.Accounting.Portfolio.{held-store}

-- The quantity that is held after a fill.
abbrev pub moved : OrderSide → Decimal → Decimal → Decimal
moved buy held filled = add held filled
moved sell held filled = sub held filled

next_state-quantity :
    (side : OrderSide) (f : PricedFill) (cash : Decimal) (state s : PositionState)
    → next_state side f cash state ≡ ok s
    → s.quantity ≡ moved side state.quantity f.quantity
unfolding next_state bought sold
next_state-quantity buy f cash state s h = ground arith
next_state-quantity sell f cash state s h = ground arith

-- A booked fill adds its cash change to the cash, and its quantity to its instrument alone.
pub apply_fill_moves :
    (i j : ℕ) (f : PricedFill) (p : LongOnlyPortfolio) (s : PositionState)
    → (apply_fill i f p).0 ≡ ok s
    → ((apply_fill i f p).1.cash ≡ add p.cash (cash_delta f))
      × ((position j (apply_fill i f p).1).quantity ≡ (
          if i == j
          then moved f.side (position j p).quantity f.quantity
          else (position j p).quantity))
unfolding apply_fill
apply_fill_moves i j f p s h = elim (Result-cases (next_state f.side f p.cash (position i p))) [
  | inr (e, refused) ↦ absurd (ground arith)
  | inl (t, done) ↦
      let q = next_state-quantity f.side f p.cash (position i p) t done in
      ground (arith, held-store i j t p.positions)
]
