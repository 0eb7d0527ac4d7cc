-- ===== src/Backtest/Selector/Visible.antt =====
-- The bars that `visible_bars` of backtest/selector.py shows.
pub mod Increasing
pub mod Causal
use bisfin.Base.{
  ℕ, ◌≡◌, refl, ◌≢◌, inl, inr, some, List, [], ◌∷◌, All, In, arith, ◌≤◌, Option-cases, All-imp,
  All-In, In-keep, In-keep_of, keep, sym, ◌∙◌, if◌then◌else◌, leb→le, subst,
}
use bisfin.Base.Sort.{sorted, All-sorted, In-sorted_of, max_from, In-max_from}
use bisfin.Base.Result.{ok}
use bisfin.Backtest.Contracts.{DecisionBar}
use bisfin.Backtest.Selector.{
  Group, ArtifactBarSelector, is_visible, older, latest, select_visible, le_open, visible_bars,
  select_rows,
}
use bisfin.Backtest.Selector.Groups.{InGroups, Opens, AreKeyed, select_rows-IsSelector}

max_from-ge :
    (best : DecisionBar) (xs : List DecisionBar)
    → (best.revision_no ≤ (max_from older best xs).revision_no)
      × All (λ c. c.revision_no ≤ (max_from older best xs).revision_no) xs
unfolding max_from
max_from-ge best [] = (omega arith, tt)
max_from-ge best (x ∷ xs) =
    let (h, k) = max_from-ge (if older best x then x else best) xs in
    (ground arith, (ground arith, k))

-- The chosen candidate is one of them, and none has a greater revision number.
pub latest-In : (xs : List DecisionBar) (b : DecisionBar) → latest xs ≡ some b → In b xs
unfolding latest
latest-In [] b h = absurd (ground arith)
latest-In (x ∷ xs) b h = ground (arith, In-max_from older x xs)

pub latest-ge :
    (xs : List DecisionBar) (b : DecisionBar)
    → latest xs ≡ some b
    → All (λ c. c.revision_no ≤ b.revision_no) xs
unfolding latest
latest-ge [] b h = tt
latest-ge (x ∷ xs) b h =
    subst (λ m. All (λ c. c.revision_no ≤ m.revision_no) (x ∷ xs)) (chosen h) (max_from-ge x xs)
  where
    chosen : some (max_from older x xs) ≡ some b → max_from older x xs ≡ b
    chosen e = cc

-- `b` is the newest revision of its bar that is visible at `ts` in the groups.
pub record IsNewest (ts : ℕ) (gs : List Group) (b : DecisionBar) : Type 0 where
  pub member : InGroups b gs
  pub visible : b.effective_available_at ≤ ts
  pub newest :
      (c : DecisionBar)
      → InGroups c gs
      → c.bar_open_ts ≡ b.bar_open_ts
      → c.effective_available_at ≤ ts
      → c.revision_no ≤ b.revision_no

open_of_group :
    (c : DecisionBar) (gs : List Group) (k : ℕ)
    → AreKeyed gs
    → All (λ g. g.0 ≢ k) gs
    → InGroups c gs
    → c.bar_open_ts ≢ k
open_of_group c [] k h n i = elim i [ ]
open_of_group c ((j, rows) ∷ gs) k h n (inl i) = λ e. n.0 (sym (All-In (Opens j) c rows h.1 i) ∙ e)
open_of_group c ((j, rows) ∷ gs) k h n (inr i) = open_of_group c gs k h.3 n.1 i

module _ (ts k : ℕ) (rows : List DecisionBar) (gs : List Group)
    (h : AreKeyed ((k, rows) ∷ gs)) where
  IsNewest-of_head :
      (b : DecisionBar)
      → latest (keep (is_visible ts) rows) ≡ some b
      → IsNewest ts ((k, rows) ∷ gs) b
  IsNewest-of_head b e =
      let kept = In-keep (is_visible ts) b rows (latest-In (keep (is_visible ts) rows) b e) in
      record {
        member = inl kept.0;
        visible = leb→le b.effective_available_at ts kept.1;
        newest = λ c i o v. among c i (o ∙ All-In (Opens k) b rows h.1 kept.0) v;
      }
    where
      among :
          (c : DecisionBar)
          → InGroups c ((k, rows) ∷ gs)
          → c.bar_open_ts ≡ k
          → c.effective_available_at ≤ ts
          → c.revision_no ≤ b.revision_no
      among c (inl i) o v =
          All-In (λ d. d.revision_no ≤ b.revision_no) c (keep (is_visible ts) rows)
            (latest-ge (keep (is_visible ts) rows) b e)
            (In-keep_of (is_visible ts) c rows i (ground arith))
      among c (inr i) o v = absurd (open_of_group c gs k h.3 h.2 i o)

  IsNewest-of_tail : (b : DecisionBar) → IsNewest ts gs b → IsNewest ts ((k, rows) ∷ gs) b
  IsNewest-of_tail b n = record {
    member = inr n.member;
    visible = n.visible;
    newest = λ c i o v. among c i o v;
  }
    where
      among :
          (c : DecisionBar)
          → InGroups c ((k, rows) ∷ gs)
          → c.bar_open_ts ≡ b.bar_open_ts
          → c.effective_available_at ≤ ts
          → c.revision_no ≤ b.revision_no
      among c (inl i) o v =
          absurd (open_of_group b gs k h.3 h.2 n.member (sym o ∙ All-In (Opens k) c rows h.1 i))
      among c (inr i) o v = n.newest c i o v

select_visible-IsNewest :
    (ts : ℕ) (gs : List Group) → AreKeyed gs → All (IsNewest ts gs) (select_visible ts gs)
unfolding select_visible
select_visible-IsNewest ts [] h = tt
select_visible-IsNewest ts ((k, rows) ∷ gs) h =
    let tail =
      All-imp (IsNewest ts gs) (IsNewest ts ((k, rows) ∷ gs)) (select_visible ts gs)
        (IsNewest-of_tail ts k rows gs h) (select_visible-IsNewest ts gs h.3) in
    elim (Option-cases (latest (keep (is_visible ts) rows))) [
      | inl e ↦ rw e tail
      | inr (b, e) ↦ rw e (IsNewest-of_head ts k rows gs h b e, tail)
    ]

abbrev pub ShowsBar : List DecisionBar → DecisionBar → Type 0
ShowsBar bs c = (b : DecisionBar) × In b bs × (b.bar_open_ts ≡ c.bar_open_ts)

-- `b` is a row that is available by `ts`, and no revision of its bar that is available by then has a
-- greater number.
abbrev pub IsShown : List DecisionBar → ℕ → DecisionBar → Type 0
IsShown rows ts b =
    In b rows
    × (b.effective_available_at ≤ ts)
    × ((c : DecisionBar)
        → In c rows
        → c.bar_open_ts ≡ b.bar_open_ts
        → c.effective_available_at ≤ ts
        → c.revision_no ≤ b.revision_no)

-- Each bar that the selector of some rows shows at `ts` is one of these rows and available by then,
-- and no revision of the same bar that is available by then has a greater number.
pub visible_bars-IsNewest :
    (rows : List DecisionBar) (s : ArtifactBarSelector) (ts : ℕ)
    → select_rows rows ≡ ok s
    → All (IsShown rows ts) (visible_bars s ts)
unfolding visible_bars
visible_bars-IsNewest rows s ts h =
    let valid = select_rows-IsSelector rows s h in
    let gs = s.rows_by_open in
    All-imp (IsNewest ts gs) (IsShown rows ts) (sorted le_open (select_visible ts gs))
      (λ b n. (valid.sound b n.member, n.visible, λ c i o v. n.newest c (valid.complete c i) o v))
      (All-sorted le_open (IsNewest ts gs) (select_visible ts gs)
        (select_visible-IsNewest ts gs valid.keyed))

latest_of_nonempty :
    (xs : List DecisionBar) (c : DecisionBar) → In c xs → (b : DecisionBar) × (latest xs ≡ some b)
unfolding latest
latest_of_nonempty [] c i = elim i [ ]
latest_of_nonempty (x ∷ xs) c i = (max_from older x xs, refl)

select_visible-ShowsBar :
    (ts : ℕ) (gs : List Group) (c : DecisionBar)
    → AreKeyed gs
    → InGroups c gs
    → c.effective_available_at ≤ ts
    → ShowsBar (select_visible ts gs) c
unfolding select_visible
select_visible-ShowsBar ts [] c h i v = elim i [ ]
select_visible-ShowsBar ts ((k, rows) ∷ gs) c h (inl i) v =
    let kept = In-keep_of (is_visible ts) c rows i (ground arith) in
    let (b, e) = latest_of_nonempty (keep (is_visible ts) rows) c kept in
    let j = (In-keep (is_visible ts) b rows (latest-In (keep (is_visible ts) rows) b e)).0 in
    (b, rw e (inl refl), All-In (Opens k) b rows h.1 j ∙ sym (All-In (Opens k) c rows h.1 i))
select_visible-ShowsBar ts ((k, rows) ∷ gs) c h (inr i) v =
    let (b, j, o) = select_visible-ShowsBar ts gs c h.3 i v in
    elim (Option-cases (latest (keep (is_visible ts) rows))) [
      | inl e ↦ (b, rw e j, o)
      | inr (d, e) ↦ (b, rw e (inr j), o)
    ]

-- No bar is missing: for each row that is available by `ts`, the selector of the rows shows a
-- revision of its bar.
pub visible_bars-ShowsBar :
    (rows : List DecisionBar) (s : ArtifactBarSelector) (ts : ℕ) (c : DecisionBar)
    → select_rows rows ≡ ok s
    → In c rows
    → c.effective_available_at ≤ ts
    → ShowsBar (visible_bars s ts) c
unfolding visible_bars
visible_bars-ShowsBar rows s ts c h i v =
    let valid = select_rows-IsSelector rows s h in
    let gs = s.rows_by_open in
    let (b, j, o) = select_visible-ShowsBar ts gs c valid.keyed (valid.complete c i) v in
    (b, In-sorted_of le_open b (select_visible ts gs) j, o)
