-- ===== src/Backtest/Selector/Visible/Causal.antt =====
-- What `visible_bars` of backtest/selector.py depends on.
use bisfin.Base.{
  ℕ, ◌≡◌, ◌↔◌, refl, inl, inr, List, [], ◌∷◌, All-In, In, arith, ◌≤◌, ◌<◌, sym, ◌∙◌, ap, subst,
}
use bisfin.Base.Result.{ok}
use bisfin.Backtest.Contracts.{DecisionBar}
use bisfin.Backtest.Selector.{ArtifactBarSelector, visible_bars, select_rows}
use bisfin.Backtest.Selector.Visible.{IsShown, visible_bars-IsNewest, visible_bars-ShowsBar}
use bisfin.Backtest.Selector.Visible.Increasing.{AreIncreasing, visible_bars-AreIncreasing}

opens_later :
    (x y : DecisionBar) (ys : List DecisionBar)
    → AreIncreasing (y ∷ ys)
    → In x ys
    → y.bar_open_ts < x.bar_open_ts
opens_later x y ys h i = All-In (λ c. y.bar_open_ts < c.bar_open_ts) x ys h.0 i

in_tail :
    (b x y : DecisionBar) (xs ys : List DecisionBar)
    → AreIncreasing (x ∷ xs)
    → x ≡ y
    → In b xs
    → In b (y ∷ ys)
    → In b ys
in_tail b x y xs ys h same i (inr j) = j
in_tail b x y xs ys h same i (inl e) =
    let later = opens_later b x xs h i in
    absurd (omega (arith, ap (λ (d : DecisionBar). d.bar_open_ts) (e ∙ sym same)))

-- Bars in the order of their opening are determined by which they are.
increasing_ext :
    (xs ys : List DecisionBar)
    → AreIncreasing xs
    → AreIncreasing ys
    → ((b : DecisionBar) → In b xs → In b ys)
    → ((b : DecisionBar) → In b ys → In b xs)
    → xs ≡ ys
increasing_ext [] [] h k f g = refl
increasing_ext [] (y ∷ ys) h k f g = elim (g y (inl refl)) [ ]
increasing_ext (x ∷ xs) [] h k f g = elim (f x (inl refl)) [ ]
increasing_ext (x ∷ xs) (y ∷ ys) h k f g =
    let same = heads (f x (inl refl)) (g y (inl refl)) in
    let tails =
      increasing_ext xs ys h.1 k.1 (λ b i. in_tail b x y xs ys h same i (f b (inr i)))
        (λ b j. in_tail b y x ys xs k (sym same) j (g b (inr j))) in
    ap (λ (b : DecisionBar). b ∷ xs) same ∙ ap (λ (bs : List DecisionBar). y ∷ bs) tails
  where
    heads : In x (y ∷ ys) → In y (x ∷ xs) → x ≡ y
    heads (inl e) j = e
    heads (inr i) (inl e) = sym e
    heads (inr i) (inr j) = absurd (omega (arith, opens_later x y ys k i, opens_later y x xs h j))

-- A row is given by its opening and its number.
abbrev pub AreDistinctRevisions : List DecisionBar → Type 0
AreDistinctRevisions rows =
    (b c : DecisionBar)
    → In b rows
    → In c rows
    → b.bar_open_ts ≡ c.bar_open_ts
    → b.revision_no ≡ c.revision_no
    → b ≡ c

-- The rows that are available by `ts` are the same.
abbrev pub AgreeUntil : ℕ → List DecisionBar → List DecisionBar → Type 0
AgreeUntil ts rows others =
    (b : DecisionBar) → b.effective_available_at ≤ ts → In b rows ↔ In b others

module _ (ts : ℕ) (rows others : List DecisionBar) (s t : ArtifactBarSelector)
    (built : select_rows rows ≡ ok s) (built_too : select_rows others ≡ ok t)
    (known : AgreeUntil ts rows others) (distinct : AreDistinctRevisions rows) where
  shown_too : (b : DecisionBar) → In b (visible_bars s ts) → In b (visible_bars t ts)
  shown_too b i =
      let (member, available, newest) =
        All-In (IsShown rows ts) b (visible_bars s ts) (visible_bars-IsNewest rows s ts built) i in
      let (c, j, opens) =
        visible_bars-ShowsBar others t ts b built_too ((known b available).0 member) available in
      let (member', available', newest') =
        All-In (IsShown others ts) c (visible_bars t ts)
          (visible_bars-IsNewest others t ts built_too) j in
      let back = (known c available').1 member' in
      let below = newest c back opens available' in
      let above = newest' b ((known b available).0 member) (sym opens) available in
      subst (λ (d : DecisionBar). In d (visible_bars t ts))
        (distinct c b back member opens (omega arith)) j

-- The bars that are visible at `ts` depend only on which rows are available by then: the selectors of
-- two collections of rows that agree until `ts`, in whatever order, show the same bars in the same
-- order. The rows of either are distinct in their opening and number.
pub visible_bars_causal :
    (ts : ℕ) (rows others : List DecisionBar) (s t : ArtifactBarSelector)
    → select_rows rows ≡ ok s
    → select_rows others ≡ ok t
    → AgreeUntil ts rows others
    → AreDistinctRevisions rows
    → AreDistinctRevisions others
    → visible_bars s ts ≡ visible_bars t ts
visible_bars_causal ts rows others s t built built_too known one two =
    increasing_ext (visible_bars s ts) (visible_bars t ts)
      (visible_bars-AreIncreasing rows s ts built)
      (visible_bars-AreIncreasing others t ts built_too)
      (shown_too ts rows others s t built built_too known one)
      (shown_too ts others rows t s built_too built (λ b v. let (f, g) = known b v in (g, f)) two)
