-- ===== src/Repositories/Bars/Revisions.antt =====
-- `append_revision_if_changed` of repositories/bar_writer_repository.py.
use bisfin.Repositories.Bars.Storage.{stored}
use bisfin.Repositories.{
  Referenced, RepositoryError, database_error, value_error, integrity_violation,
}
use bisfin.Base.Result.{Result, err, ok, ◌>>◌, raise_if}
use bisfin.Decimal.{Decimal, below_zero, eq, lt}
use bisfin.Base.Int.{ℤ, ltb_ℤ, pos}
use bisfin.Base.{
  Bool, ℕ, Option, true, ltb, ◌==◌, not, List, some, ◌+◌, ◌&&◌, if◌then◌else◌, false, none, leb,
  ◌∷◌, [], ◌/◌, ◌||◌, ◌++◌,
}
use bisfin.Repositories.Bars.{
  BarRevisionWriteResult, BarRevisionCandidate, BarRevision, BarRevisionWriteStatus, BarTables,
  first_of_month, BarSeries, inserted, corrected, has, microseconds_per_day, unchanged,
}

abbrev pub same_option : {A : Type 0} → (A → A → Bool) → Option A → Option A → Bool
same_option same none none = true
same_option same none (some y) = false
same_option same (some x) none = false
same_option same (some x) (some y) = same x y

abbrev pub same_bool : Bool → Bool → Bool
same_bool true b = b
same_bool false b = not b

unfoldable pub same_ℤ : ℤ → ℤ → Bool
same_ℤ a b = not (ltb_ℤ a b) && not (ltb_ℤ b a)

-- The fields of `_COMPARISON_FIELDS`.
unfoldable pub same_values : BarRevisionCandidate → BarRevisionCandidate → Bool
unfolding same_ℤ
same_values x y =
    (x.bar_close_ts == y.bar_close_ts)
    && (x.trading_date == y.trading_date)
    && eq x.open_price y.open_price
    && eq x.high_price y.high_price
    && eq x.low_price y.low_price
    && eq x.close_price y.close_price
    && same_option eq x.volume y.volume
    && same_option eq x.official_close_price y.official_close_price
    && same_option eq x.settlement_price y.settlement_price
    && same_option eq x.quote_volume y.quote_volume
    && same_option same_ℤ x.trade_count y.trade_count
    && same_option eq x.vwap y.vwap
    && same_option eq x.open_interest y.open_interest
    && same_bool x.is_final y.is_final
    && same_ℤ x.quality_flags y.quality_flags
    && same_option eq x.previous_close_price y.previous_close_price

abbrev pub is_bar : ℕ → ℕ → BarRevision → Bool
is_bar series opened r = (r.values.bar_series_id == series) && (r.values.bar_open_ts == opened)

abbrev pub newer : BarRevision → Option BarRevision → BarRevision
newer r none = r
newer r (some q) = if ltb q.revision_no r.revision_no then r else q

-- The revision of a bar with the greatest number.
unfoldable pub latest : ℕ → ℕ → List BarRevision → Option BarRevision
latest series opened [] = none
latest series opened (r ∷ rs) =
    let rest = latest series opened rs in
    if is_bar series opened r then some (newer r rest) else rest

unfoldable pub has_series : ℕ → List BarSeries → Bool
has_series i [] = false
has_series i (s ∷ ss) = (s.bar_series_id == i) || has_series i ss

abbrev not_negative : Option Decimal → Bool
not_negative none = true
not_negative (some d) = not (below_zero d)

abbrev count_not_negative : Option ℤ → Bool
count_not_negative none = true
count_not_negative (some n) = not (ltb_ℤ n (pos 0))

-- The CHECK constraints of `market.bar_revision`.
unfoldable pub check_bar : BarRevisionCandidate → Bool
check_bar c =
    ltb c.bar_open_ts c.bar_close_ts
    && leb c.available_at c.system_available_at
    && not (lt c.high_price c.low_price)
    && not (lt c.open_price c.low_price)
    && not (lt c.high_price c.open_price)
    && not (lt c.close_price c.low_price)
    && not (lt c.high_price c.close_price)
    && not_negative c.volume
    && not_negative c.quote_volume
    && count_not_negative c.trade_count
    && not_negative c.open_interest
    && (not c.is_final || leb c.bar_close_ts c.available_at)

abbrev pub next_no : Option BarRevision → ℕ
next_no none = 1
next_no (some r) = r.revision_no + 1

abbrev pub write_status : Option BarRevision → BarRevisionWriteStatus
write_status none = inserted
write_status (some r) = corrected

-- The inserted row; `now` is CURRENT_TIMESTAMP.
abbrev revised : ℕ → Option BarRevision → BarRevisionCandidate → BarRevision
revised now old c = record { values = c; revision_no = next_no old; recorded_at = now }

abbrev pub Written : Type 0
Written = BarRevisionWriteResult × BarTables

module _ (numeric : Decimal → Option Decimal) where
  abbrev pub is_insertable : Referenced → BarRevisionCandidate → BarTables → Bool
  is_insertable refs c t =
      check_bar c
      && has_series c.bar_series_id t.series
      && refs.has_batch c.ingestion_batch_id
      && has (first_of_month (c.bar_open_ts / microseconds_per_day)) t.months

  -- The insert of a revision behind the latest one.
  abbrev pub insert_revision :
      ℕ
      → Referenced
      → BarTables
      → Option BarRevision
      → Option BarRevisionCandidate
      → Result RepositoryError Written
  insert_revision now refs t old none = err database_error
  insert_revision now refs t old (some c) =
      if is_insertable refs c t
      then ok (
        record { status = write_status old; revision = revised now old c },
        record t { revisions = t.revisions ++ revised now old c ∷ [] },
      )
      else err integrity_violation

  abbrev pub unchanged_or_insert :
      ℕ
      → Referenced
      → BarRevisionCandidate
      → BarTables
      → Option BarRevision
      → Result RepositoryError Written
  unchanged_or_insert now refs c t none = insert_revision now refs t none (stored numeric c)
  unchanged_or_insert now refs c t (some r) =
      if same_values r.values c
      then ok (record { status = unchanged; revision = r }, t)
      else insert_revision now refs t (some r) (stored numeric c)

  unfoldable pub append_revision_if_changed :
      ℕ → Referenced → BarRevisionCandidate → BarTables → Result RepositoryError Written
  unfolding latest same_values stored check_bar has_series first_of_month
  append_revision_if_changed now refs c t = do
    raise_if (ltb c.system_available_at c.available_at) value_error
    raise_if (c.is_final && ltb c.available_at c.bar_close_ts) value_error
    unchanged_or_insert now refs c t (latest c.bar_series_id c.bar_open_ts t.revisions)
