-- ===== src/Ingestion/Service.antt =====
-- ingestion/service.py: the state that a run works on, its inputs, and the result of a batch. What
-- the client returned or raised, the readings of the clock, and the faults of the database are
-- inputs. A transaction that raises is rolled back.
pub mod Start
pub mod Acquire
pub mod Screening
pub mod Writing
pub mod Canonicalize
pub mod Finish
pub mod Ingest
pub mod Counts
pub mod Totals
pub mod Followed
pub mod Transits
pub mod Ends
pub mod Begun
pub mod Closed
pub mod Replay
mod Tests
mod RowTests
use bisfin.Repositories.Bars.{BarTables}
use bisfin.Repositories.RawEvents.{RawEventTable}
use bisfin.Brsapi.Contracts.{ParseError}
use bisfin.Decimal.{Decimal}
use bisfin.Brsapi.Normalization.{Libraries}
use bisfin.Ingestion.Batches.{
  IngestionBatch, BatchTable, has_feed, IngestionBatchStatus, IngestionError, get_by_id,
}
use bisfin.Brsapi.Json.{
  get, JsonValue, JsonObject, empty_object, member, int, str, bool, object, decimal, array, null,
}
use bisfin.Repositories.{RepositoryError, Referenced}
use bisfin.Base.Int.{ℤ, pos}
use bisfin.Base.Texts.{Text, codes}
use bisfin.Repositories.Catalog.{CatalogTables, Provider, DataFeed, instrument_by_id}
use bisfin.Base.Result.{Result, ◌>>=◌, ok, err, commit}
use bisfin.Base.{Option, Bool, ℕ, is_some, some, true, none, false}

-- The tables of the database.
pub record Store : Type 0 where
  pub catalog : CatalogTables
  pub batches : BatchTable
  pub raw_events : RawEventTable
  pub bars : BarTables

pub record Settings : Type 0 where
  pub brsapi_provider_code : Text
  pub brsapi_daily_raw_feed_code : Text
  pub brsapi_identifier_type : Text

-- `BrsApiRawResponse`, with what the service takes from it: `payload` is what the body decodes to, and
-- `preview` the bounded and redacted start of its text.
pub record BrsApiRawResponse : Type 0 where
  pub status_code : ℤ
  pub headers : JsonObject
  pub payload : Result ParseError JsonValue
  pub payload_sha256 : Text
  pub preview : Text
  pub response_received_at : ℕ
  pub received_at_text : Text
  pub elapsed_ms : ℤ

-- What a statement or a call inside the service raises.
pub data Fault : Type 0 where
  repository : RepositoryError → Fault
  batch : IngestionError → Fault
  parse : ParseError → Fault
  client : Text → Fault
  database : Fault
  runtime_error assertion_error : Fault

-- What `fetch_unadjusted_daily_candles` gives: a response, an HTTP error with its response, another
-- error of the client, or any other exception.
pub data Fetched : Type 0 where
  response : BrsApiRawResponse → Fetched
  http_error : BrsApiRawResponse → Fault → Fetched
  api_error other_error : Fault → Fetched

-- The transactions of a run, and the places that read the clock.
pub data Step : Type 0 where
  starting acquiring finishing canonicalizing marking_canonical marking_started : Step
  writing : ℕ → Step

-- `now` is the clock at a step and `current` CURRENT_TIMESTAMP in its transaction; `faults` says which
-- transactions the database fails at their commit; `redacted` is the redacted text of an exception.
pub record World : Type 0 where
  pub libraries : Libraries
  pub numeric : Decimal → Option Decimal
  pub redact : Text → Text
  pub describe : Fault → Text
  pub now : Step → ℕ
  pub current : Step → ℕ
  pub faults : Step → Bool
  pub settings : Settings

-- `BisfinError`s of the service, `ValueError`, and what `_start_batch` lets through.
pub data ServiceError : Type 0 where
  empty_symbol request_id_conflict : ServiceError
  daily_bar_canonicalization_error daily_bar_ingestion_error : ServiceError
  not_started : Fault → ServiceError

pub record DailyBarIngestionResult : Type 0 where
  pub ingestion_batch_id : ℕ
  pub status : IngestionBatchStatus
  pub provider_code : Text
  pub feed_code : Text
  pub symbol : Text
  pub received_count : ℤ
  pub accepted_count : ℤ
  pub rejected_count : ℤ
  pub raw_inserted_count : ℤ
  pub bar_inserted_count : ℤ
  pub bar_corrected_count : ℤ
  pub bar_unchanged_count : ℤ
  pub source_watermark : Option Text
  pub payload_sha256 : Option Text
  pub started_at : ℕ
  pub finished_at : Option ℕ
  pub idempotent_replay : Bool

-- The provider, the feed and the started batch.
pub record Started : Type 0 where
  pub provider : Provider
  pub feed : DataFeed
  pub batch : IngestionBatch

-- The counters of `_canonicalize`.
pub record Tally : Type 0 where
  pub accepted : ℕ
  pub rejected : ℕ
  pub inserted : ℕ
  pub corrected : ℕ
  pub unchanged : ℕ

abbrev pub no_rows : Tally
no_rows = record { accepted = 0; rejected = 0; inserted = 0; corrected = 0; unchanged = 0 }

-- The rows that a foreign key of the bars and raw events may name.
abbrev pub referenced : Store → Referenced
referenced s = record {
  has_feed = λ i. has_feed i s.batches.feeds;
  has_instrument = λ i. is_some (instrument_by_id i s.catalog);
  has_batch = λ i. is_some (get_by_id i s.batches.batches);
}

abbrev count_value : Option JsonValue → ℤ
count_value none = pos 0
count_value (some (int n)) = n
count_value (some null) = pos 0
count_value (some (bool b)) = pos 0
count_value (some (decimal d)) = pos 0
count_value (some (str t)) = pos 0
count_value (some (array a)) = pos 0
count_value (some (object o)) = pos 0

-- `_metadata_count`.
unfoldable pub metadata_count : IngestionBatch → Text → ℤ
unfolding get
metadata_count b key = count_value (get key b.metadata)

unfoldable pub result_from_batch :
    IngestionBatch → Text → Text → Text → Bool → DailyBarIngestionResult
unfolding metadata_count
result_from_batch b provider_code feed_code symbol replay = record {
  ingestion_batch_id = b.ingestion_batch_id;
  status = b.status;
  provider_code = provider_code;
  feed_code = feed_code;
  symbol = symbol;
  received_count = b.received_row_count;
  accepted_count = b.accepted_row_count;
  rejected_count = b.rejected_row_count;
  raw_inserted_count = metadata_count b (codes "inserted_raw_count");
  bar_inserted_count = metadata_count b (codes "inserted_revision_count");
  bar_corrected_count = metadata_count b (codes "corrected_revision_count");
  bar_unchanged_count = metadata_count b (codes "unchanged_bar_count");
  source_watermark = b.source_watermark;
  payload_sha256 = b.payload_sha256;
  started_at = b.started_at;
  finished_at = b.finished_at;
  idempotent_replay = replay;
}

abbrev count_member : Text → ℕ → JsonObject → JsonObject
count_member key n o = member key (int (pos n)) o

-- `_completion_metadata`.
abbrev pub completion_metadata : ℕ → Tally → JsonObject
completion_metadata raw y = count_member (codes "inserted_raw_count") raw (
    count_member (codes "accepted_count") y.accepted (
      count_member (codes "rejected_count") y.rejected (
        count_member (codes "inserted_revision_count") y.inserted (
          count_member (codes "corrected_revision_count") y.corrected
            (count_member (codes "unchanged_bar_count") y.unchanged empty_object)))))

abbrev with_preview : Option Text → JsonObject
with_preview none = empty_object
with_preview (some t) = member (codes "body_diagnostic_preview") (str t) empty_object

-- `_acquisition_metadata`.
abbrev pub acquisition_metadata : BrsApiRawResponse → Text → ℕ → Option Text → JsonObject
acquisition_metadata r status raw preview = member (codes "http_status") (int r.status_code) (
    member (codes "response_elapsed_ms") (int r.elapsed_ms) (
      member (codes "response_received_at") (str r.received_at_text) (
        member (codes "response_headers") (object r.headers) (
          member (codes "provider_status") (str status)
            (count_member (codes "inserted_raw_count") raw (with_preview preview))))))

-- A unit of work that commits: the value and the tables, or the fault with the tables as they were.
abbrev pub transaction : {A : Type 0} → Bool → Result Fault (A × Store) → Result Fault (A × Store)
transaction fault work = commit fault database work
