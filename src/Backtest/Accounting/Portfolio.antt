-- ===== src/Backtest/Accounting/Portfolio.antt =====
-- The long-only portfolio of accounting.py: what a fill does to cash, positions and errors.
use bisfin.Base.{
  ℕ, ◌≡◌, refl, ◌≢◌, ◌⊎◌, inl, inr, true, false, List, [], ◌∷◌, All, arith, ◌==◌, if◌then◌else◌,
  Bool-cases, subst,
}
use bisfin.Base.Result.{ok, err, Result-cases}
use bisfin.Decimal.{Decimal, add, sub, mul, neg, lt, is_zero, below_zero}
use bisfin.Decimal.Signs.{
  IsNonneg, add-IsNonneg, sub-IsNonneg, mul-IsNonneg, div-IsNonneg, add-neg-IsNonneg,
  below_zero-IsNonneg,
}
use bisfin.Backtest.Errors.{BacktestError, insufficient_cash, sell_exceeds_position}
use bisfin.Backtest.Accounting.{
  OrderSide, buy, sell, PricedFill, cash_delta, PositionState, no_position, LongOnlyPortfolio,
  open_portfolio, held, position, store, bought, sold, next_state, apply_fill,
}

-- A position that is not short, at an average cost that is not negative.
pub record IsLong (s : PositionState) : Type 0 where
  pub quantity : IsNonneg s.quantity
  pub average_cost : IsNonneg s.average_cost

abbrev pub AllLong : List (ℕ × PositionState) → Type 0
AllLong = All (λ e. IsLong e.1)

-- A fill of a quantity that is not negative and, if it buys, of a cost that is not negative.
pub record IsFillable (f : PricedFill) : Type 0 where
  pub quantity : IsNonneg f.quantity
  pub cost : f.side ≡ buy → IsNonneg (neg (cash_delta f))

no_position-IsLong : IsLong no_position
no_position-IsLong = record { quantity = refl; average_cost = refl }

held-IsLong : (i : ℕ) (ps : List (ℕ × PositionState)) → AllLong ps → IsLong (held i ps)
unfolding held
held-IsLong i [] h = no_position-IsLong
held-IsLong i ((j, s) ∷ ps) h = elim (Bool-cases (j == i)) [
  | inl e ↦ rw e h.0
  | inr e ↦ rw e (held-IsLong i ps h.1)
]

-- The position that a portfolio reports is long.
pub position-IsLong : (i : ℕ) (p : LongOnlyPortfolio) → AllLong p.positions → IsLong (position i p)
unfolding position
position-IsLong i p h = held-IsLong i p.positions h

store-AllLong :
    (i : ℕ) (s : PositionState) (ps : List (ℕ × PositionState))
    → IsLong s
    → AllLong ps
    → AllLong (store i s ps)
unfolding store
store-AllLong i s [] h k = (h, tt)
store-AllLong i s ((j, t) ∷ ps) h k = elim (Bool-cases (j == i)) [
  | inl e ↦ rw e (h, k.1)
  | inr e ↦ rw e (k.0, store-AllLong i s ps h k.1)
]

bought-IsLong :
    (s : PositionState) (f : PricedFill)
    → IsLong s
    → IsNonneg f.quantity
    → IsNonneg (neg (cash_delta f))
    → IsLong (bought s f)
unfolding bought
bought-IsLong s f h q c =
    let total = add (mul s.average_cost s.quantity) (neg (cash_delta f)) in
    let quantity = add-IsNonneg s.quantity f.quantity h.quantity q in
    let cost =
      add-IsNonneg (mul s.average_cost s.quantity) (neg (cash_delta f))
        (mul-IsNonneg s.average_cost s.quantity h.average_cost h.quantity) c in
    record {
      quantity = quantity;
      average_cost = div-IsNonneg total (add s.quantity f.quantity) cost quantity;
    }

sold-IsLong :
    (s : PositionState) (f : PricedFill)
    → IsLong s
    → lt s.quantity f.quantity ≡ false
    → IsLong (sold s f)
unfolding sold
sold-IsLong s f h e = record {
  quantity = sub-IsNonneg s.quantity f.quantity e;
  average_cost = elim (Bool-cases (is_zero (sub s.quantity f.quantity))) [
    | inl z ↦ rw z refl
    | inr z ↦ rw z h.average_cost
  ];
}

next_state-IsLong :
    (side : OrderSide) (f : PricedFill) (cash : Decimal) (s : PositionState) {t : PositionState}
    → IsLong s
    → IsNonneg f.quantity
    → (side ≡ buy → IsNonneg (neg (cash_delta f)))
    → next_state side f cash s ≡ ok t
    → IsLong t
unfolding next_state
next_state-IsLong buy f cash s h q c e = elim (Bool-cases (lt cash (neg (cash_delta f)))) [
  | inl short ↦ absurd (ground arith)
  | inr covered ↦ subst IsLong (ground arith) (bought-IsLong s f h q (c refl))
]
next_state-IsLong sell f cash s h q c e = elim (Bool-cases (lt s.quantity f.quantity)) [
  | inl short ↦ absurd (ground arith)
  | inr covered ↦ subst IsLong (ground arith) (sold-IsLong s f h covered)
]

-- On a portfolio whose positions are all long, a fill of a quantity that is not negative, and of a
-- cost that is not negative if it buys, leaves every position long, whether it is refused or not.
pub apply_fill-AllLong :
    (i : ℕ) (f : PricedFill) (p : LongOnlyPortfolio)
    → IsFillable f
    → AllLong p.positions
    → AllLong (apply_fill i f p).1.positions
unfolding apply_fill
apply_fill-AllLong i f p v h = elim (Result-cases (next_state f.side f p.cash (position i p))) [
  | inr (e, refused) ↦ rw refused h
  | inl (s, done) ↦ rw done (
      store-AllLong i s p.positions
        (next_state-IsLong f.side f p.cash (position i p) (position-IsLong i p h) v.quantity v.cost
          done)
        h)
]

next_state_buy_covered :
    (f : PricedFill) (cash : Decimal) (s : PositionState) {t : PositionState}
    → next_state buy f cash s ≡ ok t
    → lt cash (neg (cash_delta f)) ≡ false
unfolding next_state
next_state_buy_covered f cash s e = ground arith

cash_after :
    (side : OrderSide) (f : PricedFill) (cash : Decimal) (s : PositionState) {t : PositionState}
    → IsNonneg cash
    → (side ≡ sell → IsNonneg (cash_delta f))
    → next_state side f cash s ≡ ok t
    → IsNonneg (add cash (cash_delta f))
cash_after buy f cash s h c e =
    add-neg-IsNonneg cash (cash_delta f) (next_state_buy_covered f cash s e)
cash_after sell f cash s h c e = add-IsNonneg cash (cash_delta f) h (c refl)

-- A fill leaves cash that is not negative at zero or more, if a sell's change of the cash is not
-- negative: a buy that is not covered is refused.
pub apply_fill-cash-IsNonneg :
    (i : ℕ) (f : PricedFill) (p : LongOnlyPortfolio)
    → IsNonneg p.cash
    → (f.side ≡ sell → IsNonneg (cash_delta f))
    → IsNonneg (apply_fill i f p).1.cash
unfolding apply_fill
apply_fill-cash-IsNonneg i f p h c =
    elim (Result-cases (next_state f.side f p.cash (position i p))) [
      | inr (e, refused) ↦ rw refused h
      | inl (s, done) ↦ rw done (cash_after f.side f p.cash (position i p) h c done)
    ]

-- A fill that is refused leaves the portfolio as it was, and it is a buy that costs more than the
-- cash or a sell of more than is held, with the error that says which.
pub apply_fill_refused :
    (i : ℕ) (f : PricedFill) (p : LongOnlyPortfolio) (e : BacktestError)
    → (apply_fill i f p).0 ≡ err e
    → ((apply_fill i f p).1 ≡ p)
      × (((f.side ≡ buy) × (lt p.cash (neg (cash_delta f)) ≡ true) × (e ≡ insufficient_cash))
          ⊎ ((f.side ≡ sell)
              × (lt (position i p).quantity f.quantity ≡ true)
              × (e ≡ sell_exceeds_position)))
unfolding apply_fill
apply_fill_refused i f p e h = (ground arith, refused f.side refl (ground arith))
  where
    refused :
        (side : OrderSide)
        → f.side ≡ side
        → next_state side f p.cash (position i p) ≡ err e
        → ((f.side ≡ buy) × (lt p.cash (neg (cash_delta f)) ≡ true) × (e ≡ insufficient_cash))
          ⊎ ((f.side ≡ sell)
              × (lt (position i p).quantity f.quantity ≡ true)
              × (e ≡ sell_exceeds_position))
    refused buy d r = ground arith
    refused sell d r = ground arith

pub held-store :
    (i j : ℕ) (s : PositionState) (ps : List (ℕ × PositionState))
    → held j (store i s ps) ≡ (if i == j then s else held j ps)
unfolding held store
held-store i j s [] = refl
held-store i j s ((k, t) ∷ ps) = ground (arith, held-store i j s ps)

-- A fill that is booked returns the position that the portfolio then holds, adds the fill's cash
-- change to the cash, and leaves the position of any other instrument as it was.
apply_fill_books :
    (i j : ℕ) (f : PricedFill) (p : LongOnlyPortfolio) (s : PositionState)
    → i ≢ j
    → (apply_fill i f p).0 ≡ ok s
    → (position i (apply_fill i f p).1 ≡ s)
      × (position j (apply_fill i f p).1 ≡ position j p)
      × ((apply_fill i f p).1.cash ≡ add p.cash (cash_delta f))
unfolding apply_fill
apply_fill_books i j f p s ne h = elim (Result-cases (next_state f.side f p.cash (position i p))) [
  | inr (e, refused) ↦ absurd (ground arith)
  | inl (t, done) ↦ ground (arith, held-store i i t p.positions, held-store i j t p.positions)
]

-- A new portfolio has cash that is not negative and no position; a negative amount is refused.
pub open_portfolio-IsNonneg :
    (cash : Decimal) (p : LongOnlyPortfolio)
    → open_portfolio cash ≡ ok p
    → IsNonneg p.cash × AllLong p.positions
unfolding open_portfolio
open_portfolio-IsNonneg cash p h = elim (Bool-cases (below_zero cash)) [
  | inl e ↦ absurd (ground arith)
  | inr e ↦
      subst (λ q. IsNonneg q.cash × AllLong q.positions) (opened e) (below_zero-IsNonneg cash e, tt)
]
  where
    opened : below_zero cash ≡ false → record { cash = cash; positions = [] } ≡ p
    opened e = ground arith
