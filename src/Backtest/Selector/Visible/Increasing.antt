-- ===== src/Backtest/Selector/Visible/Increasing.antt =====
-- The order of the bars that `visible_bars` of selector.py shows.
use bisfin.Base.{
  ℕ, ◌≡◌, ◌≢◌, inl, inr, some, List, [], ◌∷◌, All, arith, ◌≤◌, ◌<◌, Bool-cases, Option-cases,
  All-imp, All-In, In-keep, keep, sym, subst,
}
use bisfin.Base.Sort.{sorted, All-sorted, insert_sorted, All-insert_sorted}
use bisfin.Base.Result.{ok}
use bisfin.Backtest.Contracts.{DecisionBar}
use bisfin.Backtest.Selector.{
  Group, ArtifactBarSelector, is_visible, latest, select_visible, le_open, visible_bars,
  select_rows,
}
use bisfin.Backtest.Selector.Groups.{Opens, AreKeyed, select_rows-IsSelector}
use bisfin.Backtest.Selector.Visible.{IsNewest, open_of_group, select_visible-IsNewest, latest-In}

-- Each bar opens after those before it.
abbrev pub AreIncreasing : List DecisionBar → Type 0
AreIncreasing [] = Unit
AreIncreasing (b ∷ bs) = All (λ c. b.bar_open_ts < c.bar_open_ts) bs × AreIncreasing bs

OpensOther : ℕ → DecisionBar → Type 0
OpensOther k b = b.bar_open_ts ≢ k

other_opens :
    (ts k : ℕ) (gs : List Group)
    → AreKeyed gs
    → All (λ g. g.0 ≢ k) gs
    → All (OpensOther k) (select_visible ts gs)
unfolding OpensOther
other_opens ts k gs h n =
    All-imp (IsNewest ts gs) (OpensOther k) (select_visible ts gs)
      (λ b v. open_of_group b gs k h n v.member) (select_visible-IsNewest ts gs h)

insert_sorted-AreIncreasing :
    (b : DecisionBar) (bs : List DecisionBar)
    → All (OpensOther b.bar_open_ts) bs
    → AreIncreasing bs
    → AreIncreasing (insert_sorted le_open b bs)
unfolding insert_sorted OpensOther
insert_sorted-AreIncreasing b [] n h = (tt, tt)
insert_sorted-AreIncreasing b (c ∷ cs) n h = elim (Bool-cases (le_open b c)) [
  | inl e ↦ rw e ((ground arith, beyond (ground arith) cs h.0), h)
  | inr e ↦ rw e (
    All-insert_sorted le_open (λ d. c.bar_open_ts < d.bar_open_ts) b cs (ground arith) h.0,
    insert_sorted-AreIncreasing b cs n.1 h.1,
  )
]
  where
    beyond :
        b.bar_open_ts ≤ c.bar_open_ts
        → (ds : List DecisionBar) → All (λ d. c.bar_open_ts < d.bar_open_ts) ds
        → All (λ d. b.bar_open_ts < d.bar_open_ts) ds
    beyond e ds k =
        All-imp (λ d. c.bar_open_ts < d.bar_open_ts) (λ d. b.bar_open_ts < d.bar_open_ts) ds
          (λ d l. omega arith) k

select_visible-AreIncreasing :
    (ts : ℕ) (gs : List Group) → AreKeyed gs → AreIncreasing (sorted le_open (select_visible ts gs))
unfolding select_visible sorted
select_visible-AreIncreasing ts [] h = tt
select_visible-AreIncreasing ts ((k, rows) ∷ gs) h =
    let tail = select_visible-AreIncreasing ts gs h.3 in
    elim (Option-cases (latest (keep (is_visible ts) rows))) [
      | inl e ↦ rw e tail
      | inr (b, e) ↦ rw e (with_head b e tail)
    ]
  where
    with_head :
        (b : DecisionBar)
        → latest (keep (is_visible ts) rows) ≡ some b
        → AreIncreasing (sorted le_open (select_visible ts gs))
        → AreIncreasing (insert_sorted le_open b (sorted le_open (select_visible ts gs)))
    with_head b e tail =
        let i = (In-keep (is_visible ts) b rows (latest-In (keep (is_visible ts) rows) b e)).0 in
        let o = All-In (Opens k) b rows h.1 i in
        insert_sorted-AreIncreasing b (sorted le_open (select_visible ts gs))
          (All-sorted le_open (OpensOther b.bar_open_ts) (select_visible ts gs) (
            subst (λ m. All (OpensOther m) (select_visible ts gs)) (sym o)
              (other_opens ts k gs h.3 h.2)))
          tail

-- The bars that the selector of some rows shows open one strictly after the other.
pub visible_bars-AreIncreasing :
    (rows : List DecisionBar) (s : ArtifactBarSelector) (ts : ℕ)
    → select_rows rows ≡ ok s
    → AreIncreasing (visible_bars s ts)
unfolding visible_bars
visible_bars-AreIncreasing rows s ts h =
    select_visible-AreIncreasing ts s.rows_by_open (select_rows-IsSelector rows s h).keyed
