-- ===== src/Backtest/Selector/Groups.antt =====
-- The groups that the constructor of selector.py builds from the rows of a component.
use bisfin.Base.{
  ℕ, ◌≡◌, refl, ◌≢◌, ◌⊎◌, inl, inr, List, [], ◌∷◌, ◌++◌, ◌==◌, All, In, arith, Bool-cases, ==_iff,
  All-append, In-append_left, In-append_right, subst, sym, length, ◌<◌,
}
use bisfin.Base.Sort.{
  All-sorted, In-sorted, In-sorted_of, IsSorted, IsOrder, sorted-IsSorted, length-sorted,
}
use bisfin.Base.Result.{ok}
use bisfin.Backtest.Contracts.{DecisionBar}
use bisfin.Backtest.Selector.{
  Group, ArtifactBarSelector, add_row, group_from, le_visibility, sort_groups, selector_of,
  select_rows,
}

-- The row stands in one of the groups.
abbrev pub InGroups : DecisionBar → List Group → Type 0
InGroups b [] = ⊥
InGroups b ((k, rows) ∷ gs) = In b rows ⊎ InGroups b gs

abbrev pub Opens : ℕ → DecisionBar → Type 0
Opens k b = b.bar_open_ts ≡ k

-- Each group holds the revisions of its own bar, and no key stands twice.
abbrev pub AreKeyed : List Group → Type 0
AreKeyed [] = Unit
AreKeyed ((k, rows) ∷ gs) =
    (0 < length rows) × All (Opens k) rows × All (λ g. g.0 ≢ k) gs × AreKeyed gs

-- Each group's revisions are in the order of their visibility.
abbrev pub AreOrdered : List Group → Type 0
AreOrdered = All (λ g. IsSorted le_visibility g.1)

le_visibility-IsOrder : IsOrder le_visibility
le_visibility-IsOrder = record { total = λ x y h. ground arith; trans = λ x y z h k. ground arith }

other_keys-add_row :
    (k : ℕ) (row : DecisionBar) (gs : List Group)
    → k ≢ row.bar_open_ts
    → All (λ g. g.0 ≢ k) gs
    → All (λ g. g.0 ≢ k) (add_row row gs)
unfolding add_row
other_keys-add_row k row [] ne h = ((λ e. ne (sym e)), tt)
other_keys-add_row k row ((j, rows) ∷ gs) ne h = elim (Bool-cases (j == row.bar_open_ts)) [
  | inl e ↦ rw e h
  | inr e ↦ rw e (h.0, other_keys-add_row k row gs ne h.1)
]

add_row-AreKeyed : (row : DecisionBar) (gs : List Group) → AreKeyed gs → AreKeyed (add_row row gs)
unfolding add_row
add_row-AreKeyed row [] h = (omega arith, (refl, tt), tt, tt)
add_row-AreKeyed row ((k, rows) ∷ gs) h = elim (Bool-cases (k == row.bar_open_ts)) [
  | inl e ↦ rw e (
    nonempty rows,
    All-append (Opens k) rows (row ∷ []) h.1 (sym ((==_iff k row.bar_open_ts).0 e), tt),
    h.2,
    h.3,
  )
  | inr e ↦
      rw e (h.0, h.1, other_keys-add_row k row gs (ground arith) h.2, add_row-AreKeyed row gs h.3)
]
  where
    nonempty : (rs : List DecisionBar) → 0 < length (rs ++ row ∷ [])
    nonempty [] = omega arith
    nonempty (r ∷ rs) = omega arith

group_from-AreKeyed :
    (gs : List Group) (rows : List DecisionBar) → AreKeyed gs → AreKeyed (group_from gs rows)
unfolding group_from
group_from-AreKeyed gs [] h = h
group_from-AreKeyed gs (row ∷ rows) h =
    group_from-AreKeyed (add_row row gs) rows (add_row-AreKeyed row gs h)

In-append_inv : (b : DecisionBar) (xs ys : List DecisionBar) → In b (xs ++ ys) → In b xs ⊎ In b ys
In-append_inv b [] ys i = inr i
In-append_inv b (x ∷ xs) ys i = ground (arith, In-append_inv b xs ys)

InGroups-add_row :
    (b row : DecisionBar) (gs : List Group)
    → InGroups b (add_row row gs)
    → (b ≡ row) ⊎ InGroups b gs
unfolding add_row
InGroups-add_row b row [] i = ground arith
InGroups-add_row b row ((k, rows) ∷ gs) i =
    ground (arith, In-append_inv b rows (row ∷ []), InGroups-add_row b row gs)

InGroups-add_row_of :
    (b row : DecisionBar) (gs : List Group)
    → (b ≡ row) ⊎ InGroups b gs
    → InGroups b (add_row row gs)
unfolding add_row
InGroups-add_row_of b row [] i = ground arith
InGroups-add_row_of b row ((k, rows) ∷ gs) i = ground (
  arith,
  In-append_left b rows (row ∷ []),
  In-append_right b rows (row ∷ []),
  InGroups-add_row_of b row gs,
)

InGroups-group_from :
    (b : DecisionBar) (gs : List Group) (rows : List DecisionBar)
    → InGroups b (group_from gs rows)
    → InGroups b gs ⊎ In b rows
unfolding group_from
InGroups-group_from b gs [] i = inl i
InGroups-group_from b gs (row ∷ rows) i =
    ground (arith, InGroups-group_from b (add_row row gs) rows, InGroups-add_row b row gs)

InGroups-group_from_of :
    (b : DecisionBar) (gs : List Group) (rows : List DecisionBar)
    → InGroups b gs ⊎ In b rows
    → InGroups b (group_from gs rows)
unfolding group_from
InGroups-group_from_of b gs [] i = ground arith
InGroups-group_from_of b gs (row ∷ rows) i =
    ground (arith, InGroups-group_from_of b (add_row row gs) rows, InGroups-add_row_of b row gs)

InGroups-sort_groups :
    (b : DecisionBar) (gs : List Group) → InGroups b (sort_groups gs) → InGroups b gs
unfolding sort_groups
InGroups-sort_groups b [] i = i
InGroups-sort_groups b ((k, rows) ∷ gs) i =
    ground (arith, In-sorted le_visibility b rows, InGroups-sort_groups b gs)

InGroups-sort_groups_of :
    (b : DecisionBar) (gs : List Group) → InGroups b gs → InGroups b (sort_groups gs)
unfolding sort_groups
InGroups-sort_groups_of b [] i = i
InGroups-sort_groups_of b ((k, rows) ∷ gs) i =
    ground (arith, In-sorted_of le_visibility b rows, InGroups-sort_groups_of b gs)

other_keys-sort_groups :
    (k : ℕ) (gs : List Group) → All (λ g. g.0 ≢ k) gs → All (λ g. g.0 ≢ k) (sort_groups gs)
unfolding sort_groups
other_keys-sort_groups k [] h = tt
other_keys-sort_groups k ((j, rows) ∷ gs) h = (h.0, other_keys-sort_groups k gs h.1)

sort_groups-AreKeyed : (gs : List Group) → AreKeyed gs → AreKeyed (sort_groups gs)
unfolding sort_groups
sort_groups-AreKeyed [] h = tt
sort_groups-AreKeyed ((k, rows) ∷ gs) h = (
  omega (arith, length-sorted le_visibility rows),
  All-sorted le_visibility (Opens k) rows h.1,
  other_keys-sort_groups k gs h.2,
  sort_groups-AreKeyed gs h.3,
)

sort_groups-AreOrdered : (gs : List Group) → AreOrdered (sort_groups gs)
unfolding sort_groups
sort_groups-AreOrdered [] = tt
sort_groups-AreOrdered ((k, rows) ∷ gs) =
    (sorted-IsSorted le_visibility le_visibility-IsOrder rows, sort_groups-AreOrdered gs)

-- What the constructor promises of its groups.
pub record IsSelector (rows : List DecisionBar) (s : ArtifactBarSelector) : Type 0 where
  pub keyed : AreKeyed s.rows_by_open
  pub ordered : AreOrdered s.rows_by_open
  pub sound : (b : DecisionBar) → InGroups b s.rows_by_open → In b rows
  pub complete : (b : DecisionBar) → In b rows → InGroups b s.rows_by_open

-- The selector of some rows holds exactly these rows, each under its own open time, no open time
-- twice, and the revisions of a bar in the order of their visibility.
pub select_rows-IsSelector :
    (rows : List DecisionBar) (s : ArtifactBarSelector)
    → select_rows rows ≡ ok s
    → IsSelector rows s
unfolding select_rows
select_rows-IsSelector rows s h = subst (IsSelector rows) (built (group_from [] rows) h) (record {
  keyed = sort_groups-AreKeyed (group_from [] rows) (group_from-AreKeyed [] rows tt);
  ordered = sort_groups-AreOrdered (group_from [] rows);
  sound = λ b i.
      ground (arith, InGroups-sort_groups b (group_from [] rows) i, InGroups-group_from b [] rows);
  complete = λ b i.
      InGroups-sort_groups_of b (group_from [] rows) (InGroups-group_from_of b [] rows (inr i));
})
  where
    built : (gs : List Group) → selector_of gs ≡ ok s → record { rows_by_open = sort_groups gs } ≡ s
    built [] e = cc
    built (g ∷ gs) e = cc
