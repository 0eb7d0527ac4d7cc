-- ===== src/Backtest/Selector/SortedGroups.antt =====
-- The groups of a selector in the order of their keys, as `next_execution_bar` walks through them.
use bisfin.Base.{◌≢◌, inl, inr, List, [], ◌∷◌, arith, Bool-cases, sym}
use bisfin.Base.Sort.{sorted, All-sorted, IsOrder, insert_sorted, All-insert_sorted}
use bisfin.Backtest.Contracts.{DecisionBar}
use bisfin.Backtest.Selector.{Group, le_key}
use bisfin.Backtest.Selector.Groups.{InGroups, AreKeyed}

InGroups-insert_sorted :
    (b : DecisionBar) (g : Group) (gs : List Group)
    → InGroups b (insert_sorted le_key g gs)
    → InGroups b (g ∷ gs)
unfolding insert_sorted
InGroups-insert_sorted b g [] i = i
InGroups-insert_sorted b g (h ∷ gs) i = ground (arith, InGroups-insert_sorted b g gs)

InGroups-insert_sorted_of :
    (b : DecisionBar) (g : Group) (gs : List Group)
    → InGroups b (g ∷ gs)
    → InGroups b (insert_sorted le_key g gs)
unfolding insert_sorted
InGroups-insert_sorted_of b g [] i = i
InGroups-insert_sorted_of b g (h ∷ gs) i = ground (arith, InGroups-insert_sorted_of b g gs)

pub InGroups-sorted :
    (b : DecisionBar) (gs : List Group) → InGroups b (sorted le_key gs) → InGroups b gs
unfolding sorted
InGroups-sorted b [] i = i
InGroups-sorted b (g ∷ gs) i =
    ground (arith, InGroups-insert_sorted b g (sorted le_key gs), InGroups-sorted b gs)

pub InGroups-sorted_of :
    (b : DecisionBar) (gs : List Group) → InGroups b gs → InGroups b (sorted le_key gs)
unfolding sorted
InGroups-sorted_of b [] i = i
InGroups-sorted_of b (g ∷ gs) i =
    ground (arith, InGroups-insert_sorted_of b g (sorted le_key gs), InGroups-sorted_of b gs)

insert_sorted-AreKeyed :
    (g : Group) (gs : List Group) → AreKeyed (g ∷ gs) → AreKeyed (insert_sorted le_key g gs)
unfolding insert_sorted
insert_sorted-AreKeyed g [] h = h
insert_sorted-AreKeyed g (x ∷ gs) h = elim (Bool-cases (le_key g x)) [
  | inl e ↦ rw e h
  | inr e ↦ rw e (
    h.3.0,
    h.3.1,
    All-insert_sorted le_key (λ y. y.0 ≢ x.0) g gs (λ p. h.2.0 (sym p)) h.3.2,
    insert_sorted-AreKeyed g gs (h.0, h.1, h.2.1, h.3.3),
  )
]

pub sorted-AreKeyed : (gs : List Group) → AreKeyed gs → AreKeyed (sorted le_key gs)
unfolding sorted
sorted-AreKeyed [] h = tt
sorted-AreKeyed (g ∷ gs) h =
    insert_sorted-AreKeyed g (sorted le_key gs)
      (h.0, h.1, All-sorted le_key (λ y. y.0 ≢ g.0) gs h.2, sorted-AreKeyed gs h.3)

pub le_key-IsOrder : IsOrder le_key
le_key-IsOrder = record { total = λ x y h. ground arith; trans = λ x y z h k. ground arith }
