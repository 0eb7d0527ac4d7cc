-- ===== src/Ingestion/Service/Acquire.antt =====
-- `_persist_acquisition` and `_persist_empty_acquisition` of ingestion/service.py.
use bisfin.Repositories.{Referenced, RepositoryError}
use bisfin.Base.Int.{pos}
use bisfin.Brsapi.Normalization.{normalize_brsapi_symbol}
use bisfin.Base.Result.{Result, ok, ◌>>=◌, map_err}
use bisfin.Ingestion.Watermark.{source_watermark}
use bisfin.Brsapi.Json.{JsonObject}
use bisfin.Ingestion.DailyBars.{source_record_key, raw_string}
use bisfin.Brsapi.Duplicates.{DailyBarParseResult}
use bisfin.Brsapi.Contracts.{RowValidationResult}
use bisfin.Ingestion.Transitions.{record_acquisition, Acquisition}
use bisfin.Base.{List, Option, some, ◌∷◌, ℕ, [], none, length}
use bisfin.Repositories.RawEvents.{
  insert_response_record, ensure_month_partition, Inserted, RawEvent, RawEventTable, ResponseRecord,
  pending,
}
use bisfin.Ingestion.Service.{
  World, BrsApiRawResponse, Started, Store, Fault, acquisition_metadata, transaction, acquiring,
  batch, repository, referenced,
}
use bisfin.Base.Texts.{Text, codes}

abbrev or_symbol : Text → Text → Text
or_symbol [] symbol = symbol
or_symbol (c ∷ cs) symbol = c ∷ cs

module _ (w : World) where
  -- `normalized_row_symbol or symbol`.
  abbrev row_symbol : Text → Option Text → Text
  row_symbol symbol none = or_symbol symbol symbol
  row_symbol symbol (some t) = or_symbol (normalize_brsapi_symbol w.libraries t) symbol

  abbrev record_of : Text → Started → BrsApiRawResponse → RowValidationResult → ResponseRecord
  record_of symbol begun r row = record {
    ingested_at = r.response_received_at;
    ingestion_batch_id = begun.batch.ingestion_batch_id;
    feed_id = begun.feed.feed_id;
    source_record_key = some (
        source_record_key (row_symbol symbol (raw_string row.raw_payload (codes "l18")))
          (raw_string row.raw_payload (codes "date")));
    source_event_time_text = raw_string row.raw_payload (codes "time");
    source_date_text = raw_string row.raw_payload (codes "date");
    source_sequence = some row.source_sequence;
    observed_at = some r.response_received_at;
    payload_sha256 = w.libraries.payload_sha256 row.raw_payload;
    raw_payload = row.raw_payload;
    validation_status = pending;
    validation_errors = [];
  }

  abbrev pub Events : Type 0
  Events = List RawEvent × RawEventTable

  abbrev with_event : Inserted → Events → Events
  with_event (e, t) (es, t') = (e ∷ es, t')

  -- The loop over the rows, in their order.
  unfoldable pub insert_events :
      Text
      → Started
      → BrsApiRawResponse
      → Referenced
      → List RowValidationResult
      → RawEventTable
      → Result RepositoryError Events
  unfolding insert_response_record source_record_key raw_string normalize_brsapi_symbol
  insert_events symbol begun r refs [] t = ok ([], t)
  insert_events symbol begun r refs (row ∷ rows) t = do
    stored ← insert_response_record refs (record_of symbol begun r row) t
    later ← insert_events symbol begun r refs rows stored.1
    ok (stored.0 ∷ later.0, later.1)

  abbrev pub partitioned : List RowValidationResult → ℕ → RawEventTable → RawEventTable
  partitioned [] ts t = t
  partitioned (row ∷ rows) ts t = ensure_month_partition ts t

  abbrev pub provider_status : Option JsonObject → Text
  provider_status none = codes "rows"
  provider_status (some o) = codes "no_data"

  abbrev pub acquisition_of : BrsApiRawResponse → DailyBarParseResult → ℕ → Acquisition
  acquisition_of r parsed raw = record {
    payload_sha256 = r.payload_sha256;
    received_row_count = pos (length parsed.rows);
    source_watermark = source_watermark parsed.rows;
    metadata = some (acquisition_metadata r (provider_status parsed.no_data_payload) raw none);
  }

  -- The raw events of the rows, and the acquisition of the batch.
  unfoldable pub persist_acquisition :
      Text
      → Started
      → BrsApiRawResponse
      → DailyBarParseResult
      → Store
      → Result Fault (List RawEvent × Store)
  unfolding insert_events ensure_month_partition record_acquisition source_watermark
  persist_acquisition symbol begun r parsed s = transaction (w.faults acquiring) do
    events ← map_err repository (
        insert_events symbol begun r (referenced s) parsed.rows
          (partitioned parsed.rows r.response_received_at s.raw_events))
    acquired ← map_err batch (
        record_acquisition begun.batch.ingestion_batch_id
          (acquisition_of r parsed (length events.0)) s.batches)
    ok (events.0, record s { raw_events = events.1; batches = acquired.1 })

  abbrev pub empty_acquisition : BrsApiRawResponse → Text → Option Text → Acquisition
  empty_acquisition r status preview = record {
    payload_sha256 = r.payload_sha256;
    received_row_count = pos 0;
    source_watermark = none;
    metadata = some (acquisition_metadata r status 0 preview);
  }

  unfoldable pub persist_empty_acquisition :
      Started → BrsApiRawResponse → Text → Option Text → Store → Result Fault (Unit × Store)
  unfolding record_acquisition
  persist_empty_acquisition begun r status preview s = transaction (w.faults acquiring) do
    acquired ← map_err batch (
        record_acquisition begun.batch.ingestion_batch_id (empty_acquisition r status preview)
          s.batches)
    ok (tt, record s { batches = acquired.1 })
