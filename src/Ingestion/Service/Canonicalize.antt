-- ===== src/Ingestion/Service/Canonicalize.antt =====
-- `_canonicalize` of ingestion/service.py, which is one transaction.
use bisfin.Base.Int.{pos}
use bisfin.Ingestion.Watermark.{source_watermark}
use bisfin.Repositories.Bars.{ensure_month_partitions, Timeframe}
use bisfin.Ingestion.Service.Writing.{write_rows, Writing}
use bisfin.Repositories.Catalog.{
  Provider, DataFeed, get_provider_by_code, get_feed_by_code, get_timeframe_by_code,
}
use bisfin.Ingestion.Transitions.{finalize_batch, Finalization}
use bisfin.Ingestion.Service.Screening.{screen_rows, ResolvedRow}
use bisfin.Repositories.RawEvents.{RawEvent}
use bisfin.Base.Texts.{Text, codes}
use bisfin.Brsapi.Contracts.{RowValidationResult}
use bisfin.Base.Result.{Result, ◌>>=◌, ok, ◌>>◌, raise_if, map_err}
use bisfin.Ingestion.Service.{
  BrsApiRawResponse, World, Fault, DailyBarIngestionResult, Started, Store, Tally,
  result_from_batch, batch, no_rows, completion_metadata, referenced, canonicalizing, runtime_error,
  transaction, repository,
}
use bisfin.Base.{List, Option, none, ◌∷◌, some, [], Bool, ◌==◌, ℕ, length, ◌&&◌, map, false, not}
use bisfin.Ingestion.Batches.{
  IngestionBatchStatus, succeeded, terminal_status, running, partial, failed, quarantined,
}

-- `zip(rows, raw_events, strict=True)`.
unfoldable pub zip_events :
    List RowValidationResult → List RawEvent → List (RowValidationResult × RawEvent)
zip_events [] es = []
zip_events (row ∷ rows) [] = []
zip_events (row ∷ rows) (e ∷ es) = (row, e) ∷ zip_events rows es

abbrev summary_text : IngestionBatchStatus → Option Text
summary_text succeeded = none
summary_text running = some (codes "One or more rows were rejected.")
summary_text partial = some (codes "One or more rows were rejected.")
summary_text failed = some (codes "One or more rows were rejected.")
summary_text quarantined = some (codes "One or more rows were rejected.")

-- The acquired rows and their events.
pub record Acquired : Type 0 where
  pub response : BrsApiRawResponse
  pub rows : List RowValidationResult
  pub raw_events : List RawEvent

abbrev pub ResultOf : Type 0
ResultOf = Result Fault (DailyBarIngestionResult × Store)

module _ (w : World) (symbol : Text) (begun : Started) (a : Acquired) where
  abbrev pub finalization_of : Tally → Finalization
  finalization_of y =
      let status = terminal_status y.accepted y.rejected in
      record {
        status = status;
        received_row_count = pos (length a.rows);
        accepted_row_count = pos y.accepted;
        rejected_row_count = pos y.rejected;
        payload_sha256 = some a.response.payload_sha256;
        source_watermark = source_watermark a.rows;
        error_summary = summary_text status;
        metadata = some (completion_metadata (length a.raw_events) y);
        finished_at = some (w.now canonicalizing);
      }

  -- Both loops, from the tables of a store.
  unfoldable pub validate_and_write : ℕ → Store → Result Fault Writing
  unfolding screen_rows write_rows zip_events ensure_month_partitions
  validate_and_write timeframe s = do
    screening ←
        screen_rows w begun.provider.provider_id a.response.response_received_at s.catalog
          (zip_events a.rows a.raw_events)
          (record { events = s.raw_events; tally = no_rows; resolved = [] })
    write_rows w begun timeframe a.response.response_received_at (referenced s) 0 screening.resolved
        (record {
          events = screening.events;
          bars =
              ensure_month_partitions
                (map (λ (item : ResolvedRow). item.candidate.trading_date) screening.resolved)
                s.bars;
          tally = screening.tally;
        })

  -- The counters in the batch and in the result.
  abbrev pub finish : Store → Writing → ResultOf
  finish s written = do
    finished ← map_err batch (
        finalize_batch w.redact (w.current canonicalizing) begun.batch.ingestion_batch_id
          (finalization_of written.tally) s.batches)
    ok (
      result_from_batch finished.0 begun.provider.provider_code begun.feed.feed_code symbol false,
      record s { batches = finished.1; raw_events = written.events; bars = written.bars },
    )

  abbrev pub same_feed : Provider → DataFeed → Bool
  same_feed p f = (p.provider_id == begun.provider.provider_id) && (f.feed_id == begun.feed.feed_id)

  -- The transaction, once the provider, the feed and the timeframe are read.
  abbrev pub canonicalize_rows : Provider → DataFeed → Timeframe → Store → ResultOf
  canonicalize_rows p f timeframe s = do
    raise_if (not (same_feed p f)) runtime_error
    written ← validate_and_write timeframe.timeframe_id s
    finish s written

  abbrev pub work : Store → ResultOf
  work s = do
    p ← map_err repository (get_provider_by_code w.settings.brsapi_provider_code s.catalog)
    f ←
        map_err repository
          (get_feed_by_code p.provider_id w.settings.brsapi_daily_raw_feed_code s.catalog)
    timeframe ← map_err repository (get_timeframe_by_code (codes "1d") s.catalog)
    canonicalize_rows p f timeframe s

  unfoldable pub canonicalize : Store → ResultOf
  unfolding validate_and_write finalize_batch result_from_batch terminal_status source_watermark
      get_provider_by_code get_feed_by_code get_timeframe_by_code
  canonicalize s = do
    raise_if (not (length a.raw_events == length a.rows)) runtime_error
    transaction (w.faults canonicalizing) (work s)
