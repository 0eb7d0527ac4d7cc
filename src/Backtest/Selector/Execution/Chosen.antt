-- ===== src/Backtest/Selector/Execution/Chosen.antt =====
-- The execution bar that the groups of backtest/selector.py offer.
use bisfin.Base.{
  ℕ, ◌≡◌, refl, ◌≢◌, ◌⊎◌, inl, inr, true, false, some, List, [], ◌∷◌, All, In, arith, ◌≤◌, ◌<◌,
  All-In, In-keep, keep, sym, ◌∙◌, leb→le, subst, ltb, leb, ltb→lt,
}
use bisfin.Base.Sort.{IsSorted}
use bisfin.Backtest.Contracts.{DecisionBar}
use bisfin.Backtest.Selector.{Group, is_visible, latest, le_key, le_visibility}
use bisfin.Backtest.Selector.Groups.{InGroups, Opens, AreKeyed}
use bisfin.Backtest.Selector.Visible.{latest-In}

abbrev pub ShowsBeforeIn : ℕ → List Group → DecisionBar → Type 0
ShowsBeforeIn earliest gs c =
    (d : DecisionBar) × InGroups d gs
    × (d.bar_open_ts ≡ c.bar_open_ts)
    × (d.effective_available_at < earliest)

-- `b` is the execution bar that the groups offer.
pub record IsChosen (signal earliest : ℕ) (gs : List Group) (b : DecisionBar) : Type 0 where
  pub member : InGroups b gs
  pub later : signal < b.bar_open_ts
  pub in_time : earliest ≤ b.effective_available_at
  pub first_visible :
      (c : DecisionBar)
      → InGroups c gs
      → c.bar_open_ts ≡ b.bar_open_ts
      → b.effective_available_at ≤ c.effective_available_at
  pub skipped :
      (c : DecisionBar)
      → InGroups c gs
      → signal < c.bar_open_ts
      → c.bar_open_ts < b.bar_open_ts
      → ShowsBeforeIn earliest gs c

key_of_group :
    (c : DecisionBar) (gs : List Group) (P : ℕ → Type 0)
    → AreKeyed gs
    → All (λ g. P g.0) gs
    → InGroups c gs
    → P c.bar_open_ts
key_of_group c [] P h n i = elim i [ ]
key_of_group c ((j, rows) ∷ gs) P h n (inl i) = subst P (sym (All-In (Opens j) c rows h.1 i)) n.0
key_of_group c ((j, rows) ∷ gs) P h n (inr i) = key_of_group c gs P h.3 n.1 i

module _ (signal earliest k : ℕ) (r : DecisionBar) (rs : List DecisionBar) (gs : List Group)
    (h : AreKeyed ((k, r ∷ rs) ∷ gs)) (ordered : IsSorted le_visibility (r ∷ rs))
    (above : All (λ g. le_key (k, r ∷ rs) g ≡ true) gs) where
  key_above : (c : DecisionBar) → InGroups c gs → k < c.bar_open_ts
  key_above c i =
      let ge = key_of_group c gs (λ j. leb k j ≡ true) h.3 above i in
      let ne = key_of_group c gs (λ j. j ≢ k) h.3 h.2 i in ground arith

  opens_head : (c : DecisionBar) → In c (r ∷ rs) → c.bar_open_ts ≡ k
  opens_head c i = All-In (Opens k) c (r ∷ rs) h.1 i

  first_visibility_le :
      (c : DecisionBar) → In c (r ∷ rs) → r.effective_available_at ≤ c.effective_available_at
  first_visibility_le c (inl e) = ground arith
  first_visibility_le c (inr i) =
      let le = All-In (λ d. le_visibility r d ≡ true) c rs ordered.0 i in ground arith

  -- The head group is the first that opens after the signal and shows in time.
  pub head-IsChosen :
      (b : DecisionBar)
      → leb k signal ≡ false
      → ltb r.effective_available_at earliest ≡ false
      → latest (keep (is_visible r.effective_available_at) (r ∷ rs)) ≡ some b
      → IsChosen signal earliest ((k, r ∷ rs) ∷ gs) b
  head-IsChosen b after in_time e =
      let kept =
        In-keep (is_visible r.effective_available_at) b (r ∷ rs)
          (latest-In (keep (is_visible r.effective_available_at) (r ∷ rs)) b e) in
      let o = opens_head b kept.0 in
      let low = first_visibility_le b kept.0 in
      let high = leb→le b.effective_available_at r.effective_available_at kept.1 in
      record {
        member = inl kept.0;
        later = ground arith;
        in_time = ground arith;
        first_visible = λ c i q. among c i (q ∙ o) high;
        skipped = λ c i l m. absurd (none_below c i (subst (λ j. c.bar_open_ts < j) o m));
      }
    where
      among :
          (c : DecisionBar)
          → InGroups c ((k, r ∷ rs) ∷ gs)
          → c.bar_open_ts ≡ k
          → b.effective_available_at ≤ r.effective_available_at
          → b.effective_available_at ≤ c.effective_available_at
      among c (inl i) q v = omega (arith, first_visibility_le c i)
      among c (inr i) q v = absurd (omega (arith, key_above c i))

      none_below : (c : DecisionBar) → InGroups c ((k, r ∷ rs) ∷ gs) → c.bar_open_ts < k → ⊥
      none_below c (inl i) l = omega (arith, opens_head c i)
      none_below c (inr i) l = omega (arith, key_above c i)

  -- The head group is passed over, since it opens too early or shows too early.
  pub tail-IsChosen :
      (b : DecisionBar)
      → (leb k signal ≡ true) ⊎ (ltb r.effective_available_at earliest ≡ true)
      → IsChosen signal earliest gs b
      → IsChosen signal earliest ((k, r ∷ rs) ∷ gs) b
  tail-IsChosen b why t = record {
    member = inr t.member;
    later = t.later;
    in_time = t.in_time;
    first_visible = λ c i q. among c i q;
    skipped = λ c i l m. passed c why i l m;
  }
    where
      among :
          (c : DecisionBar)
          → InGroups c ((k, r ∷ rs) ∷ gs)
          → c.bar_open_ts ≡ b.bar_open_ts
          → b.effective_available_at ≤ c.effective_available_at
      among c (inl i) q = absurd (omega (arith, key_above b t.member, opens_head c i))
      among c (inr i) q = t.first_visible c i q

      passed :
          (c : DecisionBar)
          → (leb k signal ≡ true) ⊎ (ltb r.effective_available_at earliest ≡ true)
          → InGroups c ((k, r ∷ rs) ∷ gs)
          → signal < c.bar_open_ts
          → c.bar_open_ts < b.bar_open_ts
          → ShowsBeforeIn earliest ((k, r ∷ rs) ∷ gs) c
      passed c (inl e) (inl i) l m = absurd (omega (arith, leb→le k signal e, opens_head c i))
      passed c (inr e) (inl i) l m = (
        r,
        inl (inl refl),
        opens_head r (inl refl) ∙ sym (opens_head c i),
        ltb→lt r.effective_available_at earliest e,
      )
      passed c why' (inr i) l m = let (d, j, o, v) = t.skipped c i l m in (d, inr j, o, v)
