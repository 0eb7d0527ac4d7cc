-- ===== src/Calendar/Import.antt =====
-- calendar/importer.py: the import of a validated calendar. The clock and the transactions that the
-- database fails are inputs, as are the hash of a JSON text and the text of a conflict.
pub mod Audit
pub mod Write
pub mod Loop
pub mod Atomic
mod Tests
use bisfin.Base.Int.{ℤ}
use bisfin.Ingestion.Service.{Store}
use bisfin.Repositories.{RepositoryError}
use bisfin.Ingestion.Watermark.{isoformat}
use bisfin.Base.Texts.{Text, same_text, codes}
use bisfin.Base.{Bool, Option, List, ℕ, some, [], is_some, true, length, none, false, ◌&&◌, ◌==◌}
use bisfin.Brsapi.Json.{JsonObject, member, str, empty_object}
use bisfin.Ingestion.Batches.{IngestionError, IngestionBatch, NewBatch, IngestionBatchStatus}
use bisfin.Repositories.Catalog.{DataFeed, CatalogTables, Provider}
use bisfin.Calendar.Manifest.{ValidatedCalendarSession, CalendarManifest}
use bisfin.Repositories.Catalog.{first}
use bisfin.Base.Result.{Result, ok, err, ◌>>=◌}

pub data CalendarFault : Type 0 where
  catalog_conflict conflict refused database : CalendarFault
  batch : IngestionError → CalendarFault
  repository : RepositoryError → CalendarFault

-- The transactions, each of which may read the clock.
pub data CalendarStep : Type 0 where
  starting auditing writing failing : CalendarStep

pub record CalendarWorld : Type 0 where
  pub sha256_json : JsonObject → Text
  pub same_metadata : JsonObject → JsonObject → Bool
  pub redact : Text → Text
  pub conflict_text : Text
  pub now : CalendarStep → ℕ
  pub current : CalendarStep → ℕ
  pub faults : CalendarStep → Bool

pub record Venue : Type 0 where
  pub venue_id : ℕ
  pub venue_code : Text
  pub timezone_name : Text

pub record CalendarStore : Type 0 where
  pub venues : List Venue
  pub store : Store

-- `CalendarValidationResult`, with the hash of its document.
pub record CalendarValidationResult : Type 0 where
  pub manifest : CalendarManifest
  pub payload_sha256 : Text
  pub sessions : List ValidatedCalendarSession

pub record CalendarImportResult : Type 0 where
  pub batch_id : ℕ
  pub calendar_id : Text
  pub venue_code : Text
  pub status : IngestionBatchStatus
  pub date_from : Text
  pub date_to : Text
  pub sessions_received : ℕ
  pub trading_days_inserted : ℕ
  pub closed_days_inserted : ℕ
  pub sessions_unchanged : ℕ
  pub sessions_rejected : ℤ
  pub started_at : ℕ
  pub finished_at : ℕ
  pub payload_sha256 : Text
  pub idempotent_replay : Bool

abbrev required_row : {A : Type 0} → Option A → Result CalendarFault A
required_row none = err catalog_conflict
required_row (some a) = ok a

unfoldable pub get_venue_by_code : Text → List Venue → Result CalendarFault Venue
unfolding first
get_venue_by_code code vs = required_row (first (λ (v : Venue). same_text v.venue_code code) vs)

abbrev has_provider : Text → CatalogTables → DataFeed → Bool
has_provider code t f = is_some (
    first (λ (p : Provider). (p.provider_id == f.provider_id) && same_text p.provider_code code)
      t.providers)

-- The join of a feed with its provider.
unfoldable pub get_feed_by_codes : Text → Text → CatalogTables → Result CalendarFault DataFeed
unfolding first
get_feed_by_codes provider code t =
    required_row
      (first (λ (f : DataFeed). same_text f.feed_code code && has_provider provider t f) t.feeds)

abbrev pub calendar_feed : CalendarStore → Result CalendarFault DataFeed
calendar_feed s =
    get_feed_by_codes (codes "BISFIN") (codes "BISFIN_TRADING_CALENDAR") s.store.catalog

abbrev pub calendar_metadata : CalendarManifest → JsonObject
calendar_metadata m =
    member (codes "calendar_id") (str m.calendar_id)
      (member (codes "venue_code") (str m.venue_code) empty_object)

abbrev pub calendar_batch : ℕ → DataFeed → Text → CalendarManifest → NewBatch
calendar_batch started f request m = record {
  feed_id = f.feed_id;
  parser_version = codes "trading-calendar-v1";
  request_id = some request;
  requested_event_from = none;
  requested_event_to = none;
  source_watermark = none;
  metadata = some (calendar_metadata m);
  started_at = some started;
}

abbrev or_started : Option ℕ → ℕ → ℕ
or_started none t = t
or_started (some u) t = u

abbrev or_empty : Option Text → Text
or_empty none = []
or_empty (some t) = t

-- `_replay_result`.
abbrev pub replay_result : IngestionBatch → CalendarValidationResult → CalendarImportResult
replay_result b v = record {
  batch_id = b.ingestion_batch_id;
  calendar_id = v.manifest.calendar_id;
  venue_code = v.manifest.venue_code;
  status = b.status;
  date_from = isoformat v.manifest.date_from;
  date_to = isoformat v.manifest.date_to;
  sessions_received = length v.sessions;
  trading_days_inserted = 0;
  closed_days_inserted = 0;
  sessions_unchanged = 0;
  sessions_rejected = b.rejected_row_count;
  started_at = b.started_at;
  finished_at = or_started b.finished_at b.started_at;
  payload_sha256 = or_empty b.payload_sha256;
  idempotent_replay = true;
}
