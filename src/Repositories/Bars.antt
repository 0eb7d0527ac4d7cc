-- ===== src/Repositories/Bars.antt =====
-- repositories/bar_writer_repository.py over `market.bar_series` and `market.bar_revision`, with the
-- records of domain/market_data.py. The conversion of a decimal to NUMERIC(38,18), which rounds it
-- and refuses an overflow, is a parameter. The advisory locks are held to the end of the transaction:
-- each operation is one step. The statements of `ensure_month_partitions` are listed, locks included.
pub mod Storage
pub mod Revisions
pub mod AppendOnly
pub mod Writes
pub mod Agreement
pub mod Newest
pub mod Outcome
pub mod Civil
pub mod Partitions
pub mod History
pub mod Again
use bisfin.Base.Result.{Result, ◌>>◌, ok, raise_if}
use bisfin.Base.Int.{ℤ}
use bisfin.Decimal.{Decimal}
use bisfin.Base.Texts.{Text, codes, same_text}
use bisfin.Brsapi.Json.{JsonObject, empty_object}
use bisfin.Repositories.{Referenced, RepositoryError, integrity_violation, entity_not_found}
use bisfin.Base.{
  ℕ, Option, List, ◌+◌, Bool, ◌∷◌, none, true, ◌==◌, [], ◌%◌, if◌then◌else◌, false, ◌||◌, ◌&&◌, ltb,
  ◌/◌, ◌++◌, some, ◌-◌, ◌*◌, not,
}

-- `BarRevisionWriteStatus`.
pub data BarRevisionWriteStatus : Type 0 where
  inserted corrected unchanged : BarRevisionWriteStatus

pub record Timeframe : Type 0 where
  pub timeframe_id : ℕ
  pub timeframe_code : Text
  pub calendar_unit : Text
  pub session_aligned : Bool

pub record BarSeries : Type 0 where
  pub bar_series_id : ℕ
  pub feed_id : ℕ
  pub instrument_id : ℕ
  pub timeframe_id : ℕ
  pub price_basis : Text
  pub adjustment_set_id : Option ℕ
  pub close_semantics : Text
  pub session_code : Text
  pub metadata : JsonObject
  pub created_at : ℕ

pub record BarRevisionCandidate : Type 0 where
  pub bar_open_ts : ℕ
  pub bar_series_id : ℕ
  pub available_at : ℕ
  pub system_available_at : ℕ
  pub bar_close_ts : ℕ
  pub trading_date : ℕ
  pub open_price : Decimal
  pub high_price : Decimal
  pub low_price : Decimal
  pub close_price : Decimal
  pub official_close_price : Option Decimal
  pub settlement_price : Option Decimal
  pub volume : Option Decimal
  pub quote_volume : Option Decimal
  pub trade_count : Option ℤ
  pub vwap : Option Decimal
  pub open_interest : Option Decimal
  pub is_final : Bool
  pub quality_flags : ℤ
  pub ingestion_batch_id : ℕ
  pub previous_close_price : Option Decimal

-- The stored values of a candidate, with the number and the instant that the insert gives them.
pub record BarRevision : Type 0 where
  pub values : BarRevisionCandidate
  pub revision_no : ℕ
  pub recorded_at : ℕ

pub record BarRevisionWriteResult : Type 0 where
  pub status : BarRevisionWriteStatus
  pub revision : BarRevision

-- The tables, the identity of the next series, and the months that have a partition, each by its
-- first day.
pub record BarTables : Type 0 where
  pub timeframes : List Timeframe
  pub series : List BarSeries
  pub next_series_id : ℕ
  pub months : List ℕ
  pub revisions : List BarRevision

-- `value.replace(day=1)` for a day of the proleptic Gregorian calendar, of which day 1 is
-- 0001-01-01. The year is taken from March on.
unfoldable pub first_of_month : ℕ → ℕ
first_of_month date =
    let z = date + 305 in
    let doe = z % 146097 in
    let yoe = (doe + doe / 36524 - doe / 1460 - doe / 146096) / 365 in
    let doy = doe + yoe / 100 - 365 * yoe - yoe / 4 in
    date - (doy - (153 * ((5 * doy + 2) / 153) + 2) / 5)

abbrev pub microseconds_per_day : ℕ
microseconds_per_day = 86400000000

abbrev pub has : ℕ → List ℕ → Bool
has m [] = false
has m (n ∷ ns) = (n == m) || has m ns

-- A member of the sorted set of months.
unfoldable pub insert_month : ℕ → List ℕ → List ℕ
insert_month m [] = m ∷ []
insert_month m (n ∷ ns) =
    if ltb m n then m ∷ n ∷ ns else if m == n then n ∷ ns else n ∷ insert_month m ns

-- `sorted({value.replace(day=1) for value in trading_dates})`.
unfoldable pub months_of : List ℕ → List ℕ
unfolding first_of_month insert_month
months_of [] = []
months_of (d ∷ ds) = insert_month (first_of_month d) (months_of ds)

-- A statement of the loop: the advisory lock of a month, or `market.create_bar_month_partition`.
pub data PartitionCall : Type 0 where
  lock create : ℕ → PartitionCall

-- The statements of the loop over the months.
unfoldable pub partition_calls : List ℕ → List PartitionCall
partition_calls [] = []
partition_calls (m ∷ ms) = lock m ∷ create m ∷ partition_calls ms

-- The partition of a month, created once.
abbrev pub add_month : ℕ → List ℕ → List ℕ
add_month m months = if has m months then months else months ++ m ∷ []

abbrev run_partition_call : PartitionCall → List ℕ → List ℕ
run_partition_call (lock m) months = months
run_partition_call (create m) months = add_month m months

unfoldable pub run_partition_calls : List PartitionCall → List ℕ → List ℕ
run_partition_calls [] months = months
run_partition_calls (call ∷ calls) months =
    run_partition_calls calls (run_partition_call call months)

unfoldable pub ensure_month_partitions : List ℕ → BarTables → BarTables
unfolding months_of partition_calls run_partition_calls
ensure_month_partitions dates t = record t {
  months = run_partition_calls (partition_calls (months_of dates)) t.months;
}

abbrev is_daily : ℕ → Timeframe → Bool
is_daily i f =
    (f.timeframe_id == i)
    && same_text f.timeframe_code (codes "1d")
    && same_text f.calendar_unit (codes "SESSION")
    && f.session_aligned

unfoldable has_daily : ℕ → List Timeframe → Bool
has_daily i [] = false
has_daily i (f ∷ fs) = is_daily i f || has_daily i fs

abbrev is_none : Option ℕ → Bool
is_none none = true
is_none (some i) = false

abbrev is_series : ℕ → ℕ → ℕ → BarSeries → Bool
is_series feed instrument frame s =
    (s.feed_id == feed)
    && (s.instrument_id == instrument)
    && (s.timeframe_id == frame)
    && same_text s.price_basis (codes "RAW")
    && is_none s.adjustment_set_id
    && same_text s.close_semantics (codes "LAST_TRADE")
    && same_text s.session_code (codes "REGULAR")

unfoldable find_series : ℕ → ℕ → ℕ → List BarSeries → Option BarSeries
find_series feed instrument frame [] = none
find_series feed instrument frame (s ∷ ss) =
    let rest = find_series feed instrument frame ss in
    if is_series feed instrument frame s then some s else rest

abbrev given_metadata : Option JsonObject → JsonObject
given_metadata none = empty_object
given_metadata (some o) = o

abbrev new_series : ℕ → ℕ → ℕ → ℕ → ℕ → Option JsonObject → BarSeries
new_series now i feed instrument frame metadata = record {
  bar_series_id = i;
  feed_id = feed;
  instrument_id = instrument;
  timeframe_id = frame;
  price_basis = codes "RAW";
  adjustment_set_id = none;
  close_semantics = codes "LAST_TRADE";
  session_code = codes "REGULAR";
  metadata = given_metadata metadata;
  created_at = now;
}

-- The insert with ON CONFLICT DO NOTHING on the identity, or the row that holds the identity.
abbrev series_or_insert :
    ℕ
    → Referenced
    → ℕ
    → ℕ
    → ℕ
    → Option JsonObject
    → BarTables
    → Option BarSeries
    → Result RepositoryError (BarSeries × BarTables)
series_or_insert now refs feed instrument frame metadata t (some s) = ok (s, t)
series_or_insert now refs feed instrument frame metadata t none = do
  raise_if (not (refs.has_feed feed) || not (refs.has_instrument instrument)) integrity_violation
  let s = new_series now t.next_series_id feed instrument frame metadata
  ok (s, record t { series = t.series ++ s ∷ []; next_series_id = t.next_series_id + 1 })

unfoldable pub get_or_create_daily_raw_series :
    ℕ
    → Referenced
    → ℕ
    → ℕ
    → ℕ
    → Option JsonObject
    → BarTables
    → Result RepositoryError (BarSeries × BarTables)
unfolding has_daily find_series
get_or_create_daily_raw_series now refs feed instrument frame metadata t = do
  raise_if (not (has_daily frame t.timeframes)) entity_not_found
  series_or_insert now refs feed instrument frame metadata t
      (find_series feed instrument frame t.series)
