-- ===== src/Repositories/SnapshotBars.antt =====
-- snapshot_bar_repository.py: the revisions of a series that a snapshot may hold.
pub mod Eligible
use bisfin.Base.Sort.{sorted}
use bisfin.Repositories.Bars.{BarRevision, BarSeries}
use bisfin.Base.{
  ℕ, List, Bool, ltb, Option, ◌==◌, none, false, ◌||◌, map, some, ◌&&◌, if◌then◌else◌, leb, ◌∷◌,
  keep, [],
}
use bisfin.Base.Result.{Result, ok, err}
use bisfin.Repositories.Snapshots.{ReplayMode, public_replay, actual_system_replay}

-- A row of `catalog.adjustment_set`, with what the query reads of it.
pub record AdjustmentSet : Type 0 where
  pub adjustment_set_id : ℕ
  pub knowledge_cutoff_ts : ℕ

pub data SeriesError : Type 0 where
  series_not_found newer_than_cutoff : SeriesError

unfoldable series_by_id : ℕ → List BarSeries → Option BarSeries
series_by_id i [] = none
series_by_id i (s ∷ ss) =
    let rest = series_by_id i ss in if s.bar_series_id == i then some s else rest

unfoldable adjustment_cutoff : ℕ → List AdjustmentSet → Option ℕ
adjustment_cutoff i [] = none
adjustment_cutoff i (a ∷ rest_of) =
    let rest = adjustment_cutoff i rest_of in
    if a.adjustment_set_id == i then some a.knowledge_cutoff_ts else rest

-- The LEFT JOIN with the adjustment of the series.
abbrev joined_cutoff : List AdjustmentSet → Option ℕ → Option ℕ
joined_cutoff sets none = none
joined_cutoff sets (some i) = adjustment_cutoff i sets

abbrev is_newer : ℕ → Option ℕ → Bool
is_newer cutoff none = false
is_newer cutoff (some k) = ltb cutoff k

abbrev resolved_feed : List AdjustmentSet → ℕ → Option BarSeries → Result SeriesError ℕ
resolved_feed sets cutoff none = err series_not_found
resolved_feed sets cutoff (some s) =
    if is_newer cutoff (joined_cutoff sets s.adjustment_set_id)
    then err newer_than_cutoff
    else ok s.feed_id

unfoldable resolve_series : List AdjustmentSet → ℕ → ℕ → List BarSeries → Result SeriesError ℕ
unfolding series_by_id adjustment_cutoff
resolve_series sets i cutoff ss = resolved_feed sets cutoff (series_by_id i ss)

-- A row of either query.
pub record SnapshotRow : Type 0 where
  pub revision : BarRevision
  pub effective_available_at : ℕ

abbrev pub effective_at : ReplayMode → BarRevision → ℕ
effective_at public_replay r = r.values.available_at
effective_at actual_system_replay r = r.values.system_available_at

-- The WHERE clause of both queries.
abbrev pub is_eligible : ReplayMode → ℕ → ℕ → ℕ → ℕ → BarRevision → Bool
is_eligible mode series from to cutoff r =
    (r.values.bar_series_id == series)
    && leb from r.values.bar_open_ts
    && ltb r.values.bar_open_ts to
    && leb r.values.bar_close_ts cutoff
    && r.values.is_final
    && leb (effective_at mode r) cutoff

abbrev pub snapshot_row : ReplayMode → BarRevision → SnapshotRow
snapshot_row mode r = record { revision = r; effective_available_at = effective_at mode r }

-- `bar_open_ts`, then `revision_no`; the series is the same in all rows.
abbrev pub row_le : SnapshotRow → SnapshotRow → Bool
row_le a b =
    ltb a.revision.values.bar_open_ts b.revision.values.bar_open_ts
    || ((a.revision.values.bar_open_ts == b.revision.values.bar_open_ts)
        && leb a.revision.revision_no b.revision.revision_no)

unfoldable pub eligible_revisions : ReplayMode → ℕ → ℕ → ℕ → ℕ → List BarRevision → List SnapshotRow
eligible_revisions mode series from to cutoff rs =
    sorted row_le (map (snapshot_row mode) (keep (is_eligible mode series from to cutoff) rs))
