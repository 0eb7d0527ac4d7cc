-- ===== src/Repositories/SnapshotBars/Eligible.antt =====
-- The rows of `eligible_revisions`.
use bisfin.Repositories.Bars.{BarRevision}
use bisfin.Base.{
  arith, ℕ, List, In, ◌↔◌, ◌≡◌, keep, map, ◌≤◌, ◌∷◌, ◌<◌, true, In-keep, In-keep_of, inl, ap, ◌∙◌,
  inr, sym, [],
}
use bisfin.Repositories.SnapshotBars.{
  row_le, SnapshotRow, eligible_revisions, effective_at, is_eligible, snapshot_row,
}
use bisfin.Repositories.Snapshots.{ReplayMode}
use bisfin.Base.Sort.{IsSorted, IsOrder, sorted-IsSorted, In-sorted, In-sorted_of}

-- A final revision of the series that opens in the interval, closes by the cutoff and was available by
-- the cutoff, at the instant that the mode looks at.
pub record IsVisible (mode : ReplayMode) (series from to cutoff : ℕ) (rs : List BarRevision)
    (x : SnapshotRow) : Type 0 where
  pub stored : In x.revision rs
  pub of_series : x.revision.values.bar_series_id ≡ series
  pub from_on : from ≤ x.revision.values.bar_open_ts
  pub before_end : x.revision.values.bar_open_ts < to
  pub closed : x.revision.values.bar_close_ts ≤ cutoff
  pub final : x.revision.values.is_final ≡ true
  pub effective : x.effective_available_at ≡ effective_at mode x.revision
  pub known : x.effective_available_at ≤ cutoff

In-rows :
    (mode : ReplayMode) (x : SnapshotRow) (rs : List BarRevision)
    → In x (map (snapshot_row mode) rs)
    → In x.revision rs × (x.effective_available_at ≡ effective_at mode x.revision)
In-rows mode x [] i = elim i [ ]
In-rows mode x (r ∷ rs) (inl same) = (
  inl (ap (λ (y : SnapshotRow). y.revision) same),
  ap (λ (y : SnapshotRow). y.effective_available_at) same
      ∙ sym (ap (λ (y : SnapshotRow). effective_at mode y.revision) same),
)
In-rows mode x (r ∷ rs) (inr i) = let (j, e) = In-rows mode x rs i in (inr j, e)

In-rows_of :
    (mode : ReplayMode) (x : SnapshotRow) (rs : List BarRevision)
    → In x.revision rs
    → x.effective_available_at ≡ effective_at mode x.revision
    → In x (map (snapshot_row mode) rs)
In-rows_of mode x [] i e = elim i [ ]
In-rows_of mode x (r ∷ rs) (inl same) e = inl (
    (λ k. record { revision = x.revision; effective_available_at = e k })
    ∙ ap (snapshot_row mode) same)
In-rows_of mode x (r ∷ rs) (inr i) e = inr (In-rows_of mode x rs i e)

row_le-IsOrder : IsOrder row_le
row_le-IsOrder = record { total = λ x y. ground arith; trans = λ x y z. ground arith }

module _ (mode : ReplayMode) (series from to cutoff : ℕ) (rs : List BarRevision) where
  eligible-IsVisible :
      (x : SnapshotRow)
      → In x (eligible_revisions mode series from to cutoff rs)
      → IsVisible mode series from to cutoff rs x
  unfolding eligible_revisions
  eligible-IsVisible x i =
      let kept = keep (is_eligible mode series from to cutoff) rs in
      let (j, e) = In-rows mode x kept (In-sorted row_le x (map (snapshot_row mode) kept) i) in
      let (k, eligible) = In-keep (is_eligible mode series from to cutoff) x.revision rs j in
      record {
        stored = k;
        of_series = ground arith;
        from_on = ground arith;
        before_end = ground arith;
        closed = ground arith;
        final = ground arith;
        effective = e;
        known = ground arith;
      }

  visible_eligible :
      (x : SnapshotRow)
      → IsVisible mode series from to cutoff rs x
      → In x (eligible_revisions mode series from to cutoff rs)
  unfolding eligible_revisions
  visible_eligible x v =
      let kept = keep (is_eligible mode series from to cutoff) rs in
      let passes : is_eligible mode series from to cutoff x.revision ≡ true =
        ground
          (arith, v.of_series, v.from_on, v.before_end, v.closed, v.final, v.effective, v.known) in
      In-sorted_of row_le x (map (snapshot_row mode) kept) (
        In-rows_of mode x kept
          (In-keep_of (is_eligible mode series from to cutoff) x.revision rs v.stored passes)
          v.effective)

  -- The rows for a snapshot are exactly the final revisions of the series that open in the interval,
  -- close by the cutoff and were available by the cutoff in the mode of the replay, each with the
  -- instant at which it was available; they are in the order of their opening and their number.
  pub eligible_revisions-IsVisible :
      ((x : SnapshotRow)
        → In x (eligible_revisions mode series from to cutoff rs)
          ↔ IsVisible mode series from to cutoff rs x)
      × IsSorted row_le (eligible_revisions mode series from to cutoff rs)
  unfolding eligible_revisions
  eligible_revisions-IsVisible = (
    λ x. (eligible-IsVisible x, visible_eligible x),
    sorted-IsSorted row_le row_le-IsOrder
        (map (snapshot_row mode) (keep (is_eligible mode series from to cutoff) rs)),
  )
