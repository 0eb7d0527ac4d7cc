-- ===== src/Backtest/Engine/Causality/Pending.antt =====
-- The pending orders of backtest/engine.py, all of which are among the orders of the run.
use bisfin.Backtest.Engine.{pending_at, add_pending, without_pending, SimulatedOrder}
use bisfin.Base.{
  List, ℕ, All, ◌++◌, In, ◌∷◌, Bool-cases, [], ◌==◌, All-append, inl, All-imp, inr, In-append_left,
}

unfoldable pub AreIn : List SimulatedOrder → List SimulatedOrder → Type 0
AreIn os = All (λ o. In o os)

pub pending_at-AreIn :
    (ts : ℕ) (os : List SimulatedOrder) (ps : List (ℕ × List SimulatedOrder))
    → All (λ e. AreIn os e.1) ps
    → AreIn os (pending_at ts ps)
unfolding pending_at AreIn
pending_at-AreIn ts os [] h = tt
pending_at-AreIn ts os ((k, qs) ∷ ps) h = elim (Bool-cases (k == ts)) [
  | inl e ↦ rw e h.0
  | inr e ↦ rw e (pending_at-AreIn ts os ps h.1)
]

pub without_pending-AreIn :
    (ts : ℕ) (os : List SimulatedOrder) (ps : List (ℕ × List SimulatedOrder))
    → All (λ e. AreIn os e.1) ps
    → All (λ e. AreIn os e.1) (without_pending ts ps)
unfolding without_pending
without_pending-AreIn ts os [] h = tt
without_pending-AreIn ts os ((k, qs) ∷ ps) h = elim (Bool-cases (k == ts)) [
  | inl e ↦ rw e h.1
  | inr e ↦ rw e (h.0, without_pending-AreIn ts os ps h.1)
]

pub add_pending-AreIn :
    (ts : ℕ) (o : SimulatedOrder) (os : List SimulatedOrder) (ps : List (ℕ × List SimulatedOrder))
    → In o os
    → All (λ e. AreIn os e.1) ps
    → All (λ e. AreIn os e.1) (add_pending ts o ps)
unfolding add_pending AreIn
add_pending-AreIn ts o os [] i h = ((i, tt), tt)
add_pending-AreIn ts o os ((k, qs) ∷ ps) i h = elim (Bool-cases (k == ts)) [
  | inl e ↦ rw e (All-append (λ q. In q os) qs (o ∷ []) h.0 (i, tt), h.1)
  | inr e ↦ rw e (h.0, add_pending-AreIn ts o os ps i h.1)
]

pub more_orders :
    (os : List SimulatedOrder) (o : SimulatedOrder) (ps : List (ℕ × List SimulatedOrder))
    → All (λ e. AreIn os e.1) ps
    → All (λ e. AreIn (os ++ o ∷ []) e.1) ps
unfolding AreIn
more_orders os o ps h =
    All-imp (λ (e : ℕ × List SimulatedOrder). All (λ q. In q os) e.1)
      (λ e. All (λ q. In q (os ++ o ∷ [])) e.1) ps
      (λ e k.
        All-imp (λ q. In q os) (λ q. In q (os ++ o ∷ [])) e.1
          (λ q i. In-append_left q os (o ∷ []) i) k)
      h
