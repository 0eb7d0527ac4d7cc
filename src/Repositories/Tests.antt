-- ===== src/Repositories/Tests.antt =====
-- Two bars, an event and a session, and the theorems at them.
use bisfin.Repositories.Bars.Again.{append_revision_if_changed_again}
use bisfin.Base.Int.{pos}
use bisfin.Brsapi.Json.{empty_object}
use bisfin.Base.Result.{ok}
use bisfin.Base.Texts.{codes}
use bisfin.Repositories.{Referenced}
use bisfin.Repositories.Bars.Partitions.{
  IsPartitioned, day_of, ensure_month_partitions-IsPartitioned,
}
use bisfin.Repositories.Bars.Civil.{
  CivilDate, IsValid, days_in_month, is_leap, ordinal, days_of_months,
}
use bisfin.Repositories.Bars.Storage.{stored}
use bisfin.Decimal.{Decimal, dec, lt, below_zero, eq}
use bisfin.Repositories.RawEvents.{
  update_validation_result, RawEventTable, RawEvent, rejected, validated, pending,
}
use bisfin.Base.{List, map, All, arith, ℕ, [], ◌∷◌, ◌≡◌, ◌*◌, Option, true, refl, some, ◌+◌, none}
use bisfin.Repositories.Bars.Revisions.{append_revision_if_changed, Written}
use bisfin.Repositories.Bars.History.{IsHistory, append_revisions, append_revisions-IsHistory}
use bisfin.Repositories.RawEvents.Immutable.{IsUpdate, update_validation_result-IsUpdate}
use bisfin.Repositories.Bars.AppendOnly.{numbers, AreNumbered}
use bisfin.Repositories.Catalog.{
  SessionResolvedInstrument, InstrumentIdentifier, Instrument, TradingSession, CatalogTables,
}
use bisfin.Repositories.Bars.Outcome.{IsOutcome, append_revision_if_changed-IsOutcome}
use bisfin.Repositories.Bars.{
  BarRevision, months_of, BarTables, BarSeries, BarRevisionCandidate, inserted, unchanged,
  ensure_month_partitions, partition_calls, lock, create,
}

abbrev exactly : Decimal → Option Decimal
exactly d = some d

abbrev all_rows : Referenced
all_rows = record { has_feed = λ i. true; has_instrument = λ i. true; has_batch = λ i. true }

abbrev daily_series : BarSeries
daily_series = record {
  bar_series_id = 5;
  feed_id = 3;
  instrument_id = 4;
  timeframe_id = 1;
  price_basis = codes "RAW";
  adjustment_set_id = none;
  close_semantics = codes "LAST_TRADE";
  session_code = codes "REGULAR";
  metadata = empty_object;
  created_at = 0;
}

-- Day 738000 is 2021-07-29, in the month that starts on day 737972.
abbrev pub opened : ℕ
opened = 738000 * 86400000000

abbrev bar : ℕ → BarRevisionCandidate
bar close = record {
  bar_open_ts = opened;
  bar_series_id = 5;
  available_at = opened + 20;
  system_available_at = opened + 30;
  bar_close_ts = opened + 10;
  trading_date = 738000;
  open_price = dec 100;
  high_price = dec 120;
  low_price = dec 90;
  close_price = dec close;
  official_close_price = none;
  settlement_price = none;
  volume = some (dec 7);
  quote_volume = none;
  trade_count = none;
  vwap = none;
  open_interest = none;
  is_final = true;
  quality_flags = pos 0;
  ingestion_batch_id = 1;
  previous_close_price = none;
}

abbrev empty_tables : BarTables
empty_tables = record {
  timeframes = [];
  series = daily_series ∷ [];
  next_series_id = 6;
  months = 737972 ∷ [];
  revisions = [];
}

abbrev pub first_revision : BarRevision
first_revision = record { values = bar 110; revision_no = 1; recorded_at = 9 }

abbrev one_revision : BarTables
one_revision = record empty_tables { revisions = first_revision ∷ [] }

abbrev first_write : Written
first_write = (record { status = inserted; revision = first_revision }, one_revision)

writes : append_revision_if_changed exactly 9 all_rows (bar 110) empty_tables ≡ ok first_write
unfolding append_revision_if_changed lt below_zero
writes = refl

append_revision_if_changed-IsOutcome_example :
    IsOutcome exactly 9 (bar 110) empty_tables first_write
append_revision_if_changed-IsOutcome_example =
    append_revision_if_changed-IsOutcome exactly 9 all_rows (bar 110) empty_tables writes

kept_exactly : stored exactly (bar 110) ≡ some (bar 110)
unfolding stored
kept_exactly = refl

append_revision_if_changed_again_example :
    append_revision_if_changed exactly 12 all_rows (bar 110) one_revision
    ≡ ok (record { status = unchanged; revision = first_revision }, one_revision)
append_revision_if_changed_again_example =
    append_revision_if_changed_again exactly (bar 110) kept_exactly 9 12 all_rows all_rows
      empty_tables writes

none_numbered : AreNumbered []
unfolding numbers
none_numbered series start = refl

append_revisions-IsHistory_example : IsHistory exactly empty_tables (
    append_revisions exactly all_rows
      ((9, bar 110) ∷ (12, bar 110) ∷ (15, bar 115) ∷ [])
      empty_tables)
append_revisions-IsHistory_example =
    append_revisions-IsHistory exactly all_rows ((9, bar 110) ∷ (12, bar 110) ∷ (15, bar 115) ∷ [])
      empty_tables none_numbered

-- The second write of the same values adds no revision; the corrected close adds the second one.
corrected_once :
    numbers 5 opened
      (append_revisions exactly all_rows
        ((9, bar 110) ∷ (12, bar 110) ∷ (15, bar 115) ∷ [])
        empty_tables).revisions
    ≡ 1 ∷ 2 ∷ []
unfolding append_revisions numbers lt below_zero eq
corrected_once = refl

abbrev some_dates : List CivilDate
some_dates =
    record { year = 2021; month = 7; day = 29 }
    ∷ record { year = 2021; month = 6; day = 19 }
    ∷ record { year = 2020; month = 2; day = 29 }
    ∷ record { year = 2021; month = 7; day = 30 }
    ∷ []

some_dates-IsValid : All IsValid some_dates
unfolding days_in_month is_leap
some_dates-IsValid = (
  record {
    year = omega arith;
    month_from = omega arith;
    month_to = omega arith;
    day_from = omega arith;
    day_to = omega arith;
  },
  (
    record {
      year = omega arith;
      month_from = omega arith;
      month_to = omega arith;
      day_from = omega arith;
      day_to = omega arith;
    },
    (
      record {
        year = omega arith;
        month_from = omega arith;
        month_to = omega arith;
        day_from = omega arith;
        day_to = omega arith;
      },
      (
        record {
          year = omega arith;
          month_from = omega arith;
          month_to = omega arith;
          day_from = omega arith;
          day_to = omega arith;
        },
        tt,
      ),
    ),
  ),
)

ensure_month_partitions-IsPartitioned_example :
    IsPartitioned some_dates empty_tables
      (partition_calls (months_of (map day_of some_dates)))
      (ensure_month_partitions (map day_of some_dates) empty_tables)
ensure_month_partitions-IsPartitioned_example =
    ensure_month_partitions-IsPartitioned some_dates empty_tables some_dates-IsValid

three_months :
    partition_calls (months_of (map day_of some_dates))
    ≡ lock 737456 ∷ create 737456 ∷ lock 737942 ∷ create 737942 ∷ lock 737972 ∷ create 737972 ∷ []
unfolding months_of partition_calls ordinal days_of_months days_in_month is_leap
three_months = refl

abbrev event : ℕ → RawEvent
event i = record {
  identity = record { ingested_at = 50; raw_event_id = i };
  ingestion_batch_id = 1;
  feed_id = 3;
  source_record_key = some (codes "k");
  source_event_time_text = none;
  source_date_text = none;
  source_sequence = some i;
  observed_at = none;
  payload_sha256 = codes "a";
  raw_payload = empty_object;
  validation_status = pending;
  validation_errors = [];
}

abbrev two_events : RawEventTable
two_events = record { events = event 1 ∷ event 2 ∷ []; next_raw_event_id = 3; months = [] }

abbrev after_update : RawEventTable
after_update = record two_events { events = event 1 ∷ validated rejected [] (event 2) ∷ [] }

updates :
    update_validation_result (event 2).identity rejected [] two_events
    ≡ ok (validated rejected [] (event 2), after_update)
unfolding update_validation_result
updates = refl

update_validation_result-IsUpdate_example :
    IsUpdate
      (event 2).identity
      rejected
      []
      two_events
      (validated rejected [] (event 2), after_update)
update_validation_result-IsUpdate_example =
    update_validation_result-IsUpdate (event 2).identity rejected [] two_events updates

abbrev instrument : Instrument
instrument = record {
  instrument_id = 4;
  asset_type_code = codes "EQUITY";
  venue_id = some 2;
  quote_currency_code = codes "IRR";
  canonical_symbol = codes "ABC";
  status = codes "ACTIVE";
}

abbrev identifier : InstrumentIdentifier
identifier = record {
  provider_id = 1;
  identifier_type = codes "SYMBOL";
  identifier_value = codes "abc";
  valid_from = none;
  valid_to = none;
  instrument_id = 4;
  is_primary = true;
}

abbrev session : TradingSession
session = record {
  venue_id = 2;
  trading_date = 738000;
  session_code = codes "REGULAR";
  is_trading_day = true;
  session_open_ts = some opened;
  session_close_ts = some (opened + 10);
  settlement_date = none;
  metadata = empty_object;
}

abbrev catalog : CatalogTables
catalog = record {
  providers = [];
  feeds = [];
  timeframes = [];
  sessions = session ∷ [];
  instruments = instrument ∷ [];
  identifiers = identifier ∷ [];
  specifications = [];
}

abbrev resolved_session : SessionResolvedInstrument
resolved_session = record {
  instrument = instrument;
  identifier = identifier;
  trading_session = session;
}
