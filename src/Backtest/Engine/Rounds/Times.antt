-- ===== src/Backtest/Engine/Rounds/Times.antt =====
-- The list `all_times` of `simulate` in backtest/engine.py.
use bisfin.Base.{
  ℕ, suc, ◌+◌, ◌≡◌, refl, ◌≤◌, ◌<◌, inl, inr, true, false, ◌||◌, List, [], ◌∷◌, ◌++◌, map, In,
  arith, ◌==◌, leb, length, Bool-cases, length-append, sym, subst, ap, In-append_left,
  In-append_right, if◌then◌else◌,
}
use bisfin.Base.Sort.{sorted, insert_sorted, length-sorted}
use bisfin.Base.Result.{ok}
use bisfin.Backtest.Contracts.{DecisionBar}
use bisfin.Backtest.Selector.{Group, ArtifactBarSelector}
use bisfin.Backtest.Selector.Groups.{InGroups}
use bisfin.Backtest.Engine.{
  Selectors, selector_for, elem, add_time, group_visibilities, visibilities, visibility,
}

elem-insert_sorted :
    (t x : ℕ) (xs : List ℕ) → elem t (insert_sorted leb x xs) ≡ ((x == t) || elem t xs)
unfolding elem insert_sorted
elem-insert_sorted t x [] = refl
elem-insert_sorted t x (y ∷ ys) = ground (arith, elem-insert_sorted t x ys)

elem-sorted : (t : ℕ) (xs : List ℕ) → elem t (sorted leb xs) ≡ elem t xs
unfolding elem sorted
elem-sorted t [] = refl
elem-sorted t (x ∷ xs) = ground (arith, elem-insert_sorted t x (sorted leb xs), elem-sorted t xs)

elem-append_one : (t u : ℕ) (xs : List ℕ) → elem t (xs ++ u ∷ []) ≡ (elem t xs || (u == t))
unfolding elem
elem-append_one t u [] = ground arith
elem-append_one t u (x ∷ xs) = ground (arith, elem-append_one t u xs)

elem-add_time : (t u : ℕ) (times : List ℕ) → elem t (add_time u times) ≡ (elem t times || (u == t))
unfolding add_time
elem-add_time t u times = elim (Bool-cases (elem u times)) [
  | inl e ↦ rw e (ground arith)
  | inr e ↦ rw e (ground (arith, elem-sorted t (times ++ u ∷ []), elem-append_one t u times))
]

-- How many of the possible instants the list of times does not hold yet.
unfoldable pub missing : List ℕ → List ℕ → ℕ
missing [] times = 0
missing (u ∷ us) times = let rest = missing us times in if elem u times then rest else suc rest

missing-add_time_le :
    (us : List ℕ) (t : ℕ) (times : List ℕ) → missing us (add_time t times) ≤ missing us times
unfolding missing
missing-add_time_le [] t times = omega arith
missing-add_time_le (u ∷ us) t times =
    ground (arith, missing-add_time_le us t times, elem-add_time u t times)

missing-add_time_lt :
    (us : List ℕ) (t : ℕ) (times : List ℕ)
    → In t us
    → elem t times ≡ false
    → missing us (add_time t times) < missing us times
unfolding missing
missing-add_time_lt [] t times i e = elim i [ ]
missing-add_time_lt (u ∷ us) t times (inl p) e =
    ground (arith, missing-add_time_le us t times, elem-add_time u t times)
missing-add_time_lt (u ∷ us) t times (inr i) e =
    ground (arith, missing-add_time_lt us t times i e, elem-add_time u t times)

-- The instants in the list and those that may still enter it.
unfoldable pub capacity : List ℕ → List ℕ → ℕ
capacity us times = length times + missing us times

pub capacity-add_time :
    (us : List ℕ) (t : ℕ) (times : List ℕ)
    → In t us
    → capacity us (add_time t times) ≤ capacity us times
unfolding capacity
capacity-add_time us t times i = elim (Bool-cases (elem t times)) [
  | inl e ↦ rw (same e) (omega arith)
  | inr e ↦ omega (arith, missing-add_time_lt us t times i e, grown e)
]
  where
    same : elem t times ≡ true → add_time t times ≡ times
    same e = unfold add_time in ground arith

    grown : elem t times ≡ false → length (add_time t times) ≡ suc (length times)
    grown e =
        unfold add_time in
        ground (arith, length-sorted leb (times ++ t ∷ []), length-append times (t ∷ []))

pub missing-le-length : (us times : List ℕ) → missing us times ≤ length us
unfolding missing
missing-le-length [] times = omega arith
missing-le-length (u ∷ us) times = ground (arith, missing-le-length us times)

In-map-visibility :
    (b : DecisionBar) (rows : List DecisionBar) (rest : List ℕ)
    → In b rows
    → In b.effective_available_at (map visibility rows ++ rest)
In-map-visibility b [] rest i = elim i [ ]
In-map-visibility b (r ∷ rs) rest (inl e) = inl (ap visibility e)
In-map-visibility b (r ∷ rs) rest (inr i) = inr (In-map-visibility b rs rest i)

In-append_right_map :
    (t : ℕ) (rows : List DecisionBar) (rest : List ℕ)
    → In t rest
    → In t (map visibility rows ++ rest)
In-append_right_map t rows rest i = In-append_right t (map visibility rows) rest i

In-group_visibilities :
    (b : DecisionBar) (gs : List Group)
    → InGroups b gs
    → In b.effective_available_at (group_visibilities gs)
unfolding group_visibilities
In-group_visibilities b [] i = elim i [ ]
In-group_visibilities b ((k, rows) ∷ gs) (inl i) =
    In-map-visibility b rows (group_visibilities gs) i
In-group_visibilities b ((k, rows) ∷ gs) (inr i) =
    In-append_right_map b.effective_available_at rows (group_visibilities gs)
      (In-group_visibilities b gs i)

pub In-visibilities :
    (i : ℕ) (ss : Selectors) (s : ArtifactBarSelector) (b : DecisionBar)
    → selector_for i ss ≡ ok s
    → InGroups b s.rows_by_open
    → In b.effective_available_at (visibilities ss)
unfolding selector_for visibilities
In-visibilities i [] s b e m = absurd (ground arith)
In-visibilities i ((j, t) ∷ ss) s b e m = elim (Bool-cases (j == i)) [
  | inl q ↦
      In-append_left b.effective_available_at (group_visibilities t.rows_by_open) (visibilities ss)
        (In-group_visibilities b t.rows_by_open
          (subst (λ (x : ArtifactBarSelector). InGroups b x.rows_by_open) (sym (same q)) m))
  | inr q ↦
      In-append_right b.effective_available_at (group_visibilities t.rows_by_open) (visibilities ss)
        (In-visibilities i ss s b (ground arith) m)
]
  where
    same : (j == i) ≡ true → t ≡ s
    same q = ground arith
