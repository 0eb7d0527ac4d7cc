-- ===== src/Ingestion/Service/Finish.antt =====
-- How a started batch ends in ingestion/service.py: `_finalize_no_data`,
-- `_finalize_expected_failure`, and the marks of an unexpected failure.
use bisfin.Ingestion.Watermark.{source_watermark}
use bisfin.Base.Int.{pos}
use bisfin.Base.{Option, some, none, if◌then◌else◌, ◌++◌, length, false}
use bisfin.Ingestion.Batches.{
  IngestionBatchStatus, IngestionBatch, succeeded, get_by_id, failed, is_running,
}
use bisfin.Ingestion.Transitions.{finalize_batch, Finalization, merge}
use bisfin.Brsapi.Json.{JsonObject, member, str, empty_object}
use bisfin.Ingestion.Service.Canonicalize.{ResultOf, Acquired}
use bisfin.Base.Result.{Result, ok, err, ◌>>=◌, map_err}
use bisfin.Base.Texts.{Text, codes}
use bisfin.Ingestion.Service.{
  Fault, World, Store, DailyBarIngestionResult, Started, BrsApiRawResponse, Step, result_from_batch,
  finishing, transaction, runtime_error, completion_metadata, marking_canonical, no_rows,
  marking_started, batch,
}

-- A result, or what was raised; a transaction that committed is kept in either case.
pub data Raised : Type 0 where
  canonicalization : Raised
  exception : Fault → Raised

abbrev pub Run : Type 0
Run = Result Raised DailyBarIngestionResult × Store

abbrev pub committed : Store → ResultOf → Run
committed s (ok (r, s')) = (ok r, s')
committed s (err e) = (err (exception e), s)

abbrev pub failure_code : Text → JsonObject
failure_code code = member (codes "failure_code") (str code) empty_object

module _ (w : World) (symbol : Text) (begun : Started) where
  abbrev pub finalized_as : Step → Finalization → Store → ResultOf
  finalized_as step f s = transaction (w.faults step) do
    finished ←
        map_err batch
          (finalize_batch w.redact (w.current step) begun.batch.ingestion_batch_id f s.batches)
    ok (
      result_from_batch finished.0 begun.provider.provider_code begun.feed.feed_code symbol false,
      record s { batches = finished.1 },
    )

  abbrev pub no_data_finalization : BrsApiRawResponse → Finalization
  no_data_finalization r = record {
    status = succeeded;
    received_row_count = pos 0;
    accepted_row_count = pos 0;
    rejected_row_count = pos 0;
    payload_sha256 = some r.payload_sha256;
    source_watermark = none;
    error_summary = none;
    metadata = some (completion_metadata 0 no_rows);
    finished_at = some (w.now finishing);
  }

  unfoldable pub finalize_no_data : BrsApiRawResponse → Store → ResultOf
  unfolding finalize_batch result_from_batch
  finalize_no_data r s = finalized_as finishing (no_data_finalization r) s

  abbrev digest_of : Option BrsApiRawResponse → Option Text
  digest_of none = none
  digest_of (some r) = some r.payload_sha256

  abbrev pub failure_finalization :
      IngestionBatchStatus → Text → Fault → Option BrsApiRawResponse → IngestionBatch → Finalization
  failure_finalization status code e r b = record {
    status = status;
    received_row_count = b.received_row_count;
    accepted_row_count = pos 0;
    rejected_row_count = pos 0;
    payload_sha256 = digest_of r;
    source_watermark = none;
    error_summary = some (code ++ (codes ": " ++ w.describe e));
    metadata = some (merge (completion_metadata 0 no_rows) (failure_code code));
    finished_at = some (w.now finishing);
  }

  abbrev pub fail_current :
      IngestionBatchStatus
      → Text
      → Fault
      → Option BrsApiRawResponse
      → Store
      → Option IngestionBatch
      → ResultOf
  fail_current status code e r s none = err runtime_error
  fail_current status code e r s (some b) =
      finalized_as finishing (failure_finalization status code e r b) s

  unfoldable pub finalize_expected_failure :
      IngestionBatchStatus → Text → Fault → Option BrsApiRawResponse → Store → ResultOf
  unfolding finalize_batch result_from_batch get_by_id merge
  finalize_expected_failure status code e r s =
      fail_current status code e r s (get_by_id begun.batch.ingestion_batch_id s.batches.batches)

  abbrev pub canonical_failure : Acquired → Fault → Finalization
  canonical_failure a e = record {
    status = failed;
    received_row_count = pos (length a.rows);
    accepted_row_count = pos 0;
    rejected_row_count = pos 0;
    payload_sha256 = some a.response.payload_sha256;
    source_watermark = source_watermark a.rows;
    error_summary = some (codes "CANONICALIZATION_FAILED: " ++ w.describe e);
    metadata = some (
        merge (completion_metadata (length a.raw_events) no_rows)
          (failure_code (codes "CANONICALIZATION_FAILED")));
    finished_at = some (w.now marking_canonical);
  }

  unfoldable pub mark_unexpected_canonicalization_failure : Acquired → Fault → Store → ResultOf
  unfolding finalize_batch result_from_batch merge source_watermark
  mark_unexpected_canonicalization_failure a e s =
      finalized_as marking_canonical (canonical_failure a e) s

  abbrev pub started_failure : Fault → IngestionBatch → Finalization
  started_failure e b = record {
    status = failed;
    received_row_count = b.received_row_count;
    accepted_row_count = b.accepted_row_count;
    rejected_row_count = b.rejected_row_count;
    payload_sha256 = b.payload_sha256;
    source_watermark = b.source_watermark;
    error_summary = some (codes "INGESTION_FAILED: " ++ w.describe e);
    metadata = some (failure_code (codes "INGESTION_FAILED"));
    finished_at = some (w.now marking_started);
  }

  abbrev pub mark_current : Fault → Store → Option IngestionBatch → Store
  mark_current e s none = s
  mark_current e s (some b) =
      if is_running b.status
      then (committed s (finalized_as marking_started (started_failure e b) s)).1
      else s

  -- What it raises is logged only.
  unfoldable pub mark_unexpected_started_failure : Fault → Store → Store
  unfolding finalize_batch result_from_batch get_by_id
  mark_unexpected_started_failure e s =
      mark_current e s (get_by_id begun.batch.ingestion_batch_id s.batches.batches)
