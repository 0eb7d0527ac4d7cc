-- ===== src/Ingestion/Service/Ingest.antt =====
-- `_run_started_batch` and `ingest` of ingestion/service.py.
use bisfin.Repositories.RawEvents.{RawEvent}
use bisfin.Brsapi.Duplicates.{DailyBarParseResult, parse_unadjusted_daily_candles}
use bisfin.Ingestion.Service.Canonicalize.{Acquired, ResultOf, canonicalize}
use bisfin.Ingestion.Service.Acquire.{persist_empty_acquisition, persist_acquisition}
use bisfin.Ingestion.Service.Start.{start_batch, Start}
use bisfin.Brsapi.Normalization.{strip, normalize_brsapi_symbol}
use bisfin.Ingestion.Batches.{IngestionBatchStatus, failed, quarantined}
use bisfin.Base.Result.{Result, err, ok}
use bisfin.Ingestion.Service.Finish.{
  mark_unexpected_started_failure, Run, finalize_expected_failure, exception, finalize_no_data,
  mark_unexpected_canonicalization_failure, committed, canonicalization,
}
use bisfin.Base.{Option, some, Bool, true, ◌∷◌, if◌then◌else◌, List, none, false, [], is_some}
use bisfin.Base.Texts.{Text, codes}
use bisfin.Ingestion.Service.{
  World, Store, Started, Fetched, ServiceError, BrsApiRawResponse, Fault, DailyBarIngestionResult,
  result_from_batch, daily_bar_canonicalization_error, empty_symbol, daily_bar_ingestion_error,
  parse, http_error, api_error, other_error, response,
}
use bisfin.Brsapi.Contracts.{
  ParseError, provider_error, empty_request_symbol, malformed, ambiguous_empty_array,
  non_object_row, undocumented_response, invalid_no_data_metadata, no_data_with_message, type_error,
}

abbrev pub no_acquisition : Store → Result Fault (Unit × Store) → Result Fault Unit × Store
no_acquisition s (ok (u, s')) = (ok u, s')
no_acquisition s (err e) = (err e, s)

-- Which exception the parser raised.
pub data ParserError : Type 0 where
  from_provider from_contract from_python : ParserError

abbrev pub class_of : ParseError → ParserError
class_of empty_request_symbol = from_python
class_of malformed = from_contract
class_of ambiguous_empty_array = from_contract
class_of non_object_row = from_contract
class_of undocumented_response = from_contract
class_of invalid_no_data_metadata = from_contract
class_of no_data_with_message = from_contract
class_of (provider_error code message) = from_provider
class_of ParseError.value_error = from_python
class_of type_error = from_python

module _ (w : World) (symbol : Text) (begun : Started) where
  abbrev pub after_acquisition : (Store → ResultOf) → Result Fault Unit × Store → Run
  after_acquisition finish (err e, s) = (err (exception e), s)
  after_acquisition finish (ok u, s) = committed s (finish s)

  -- An empty acquisition, then the expected failure.
  abbrev pub fail_with_response :
      Text → Option Text → IngestionBatchStatus → Text → Fault → BrsApiRawResponse → Store → Run
  fail_with_response provider_status preview status code e r s =
      after_acquisition (finalize_expected_failure w symbol begun status code e (some r))
        (no_acquisition s (persist_empty_acquisition w begun r provider_status preview s))

  -- The mark of a failed canonicalization replaces the error, unless it raises itself.
  abbrev pub marked : Acquired → Fault → Store → ResultOf → Run
  marked a e s (err e') = (err (exception e'), s)
  marked a e s (ok (r, s')) = (err canonicalization, s')

  abbrev pub canonicalized : Acquired → Store → ResultOf → Run
  canonicalized a s (ok (r, s')) = (ok r, s')
  canonicalized a s (err e) =
      marked a e s (mark_unexpected_canonicalization_failure w symbol begun a e s)

  abbrev finish_rows : BrsApiRawResponse → DailyBarParseResult → List RawEvent → Store → Run
  finish_rows r parsed events s =
      let a : Acquired = record { response = r; rows = parsed.rows; raw_events = events } in
      if is_some parsed.no_data_payload
      then committed s (finalize_no_data w symbol begun r s)
      else canonicalized a s (canonicalize w symbol begun a s)

  abbrev pub after_persistence :
      BrsApiRawResponse → DailyBarParseResult → Store → Result Fault (List RawEvent × Store) → Run
  after_persistence r parsed s (err e) = (err (exception e), s)
  after_persistence r parsed s (ok (events, s')) = finish_rows r parsed events s'

  abbrev pub parser_failure : ParserError → ParseError → BrsApiRawResponse → Store → Run
  parser_failure from_provider e r s =
      fail_with_response (codes "provider_error") none failed (codes "BRSAPI_PROVIDER_ERROR")
        (parse e) r s
  parser_failure from_contract e r s =
      fail_with_response (codes "quarantined_contract") (some r.preview) quarantined
        (codes "BRSAPI_MALFORMED_OR_AMBIGUOUS_RESPONSE") (parse e) r s
  parser_failure from_python e r s = (err (exception (parse e)), s)

  abbrev pub parsed_response :
      BrsApiRawResponse → Store → Result ParseError DailyBarParseResult → Run
  parsed_response r s (err e) = parser_failure (class_of e) e r s
  parsed_response r s (ok parsed) =
      after_persistence r parsed s (persist_acquisition w symbol begun r parsed s)

  unfoldable pub run_started_batch : Fetched → Store → Run
  unfolding persist_empty_acquisition persist_acquisition finalize_expected_failure finalize_no_data
      canonicalize mark_unexpected_canonicalization_failure parse_unadjusted_daily_candles
  run_started_batch (http_error r e) s =
      fail_with_response (codes "http_error") none failed (codes "BRSAPI_HTTP_ERROR") e r s
  run_started_batch (api_error e) s =
      committed s
        (finalize_expected_failure w symbol begun failed (codes "BRSAPI_TRANSPORT_ERROR") e none s)
  run_started_batch (other_error e) s = (err (exception e), s)
  run_started_batch (response r) s =
      parsed_response r s (parse_unadjusted_daily_candles w.libraries symbol r.payload)

  -- The two `except` clauses of `ingest`.
  abbrev pub handled : Run → Result ServiceError DailyBarIngestionResult × Store
  handled (ok r, s) = (ok r, s)
  handled (err canonicalization, s) = (err daily_bar_canonicalization_error, s)
  handled (err (exception e), s) =
      (err daily_bar_ingestion_error, mark_unexpected_started_failure w symbol begun e s)

abbrev pub is_empty : Text → Bool
is_empty [] = true
is_empty (c ∷ cs) = false

abbrev pub effective : Option Text → Text → Text
effective none generated = generated
effective (some r) generated = let t = strip r in if is_empty t then generated else t

module _ (w : World) where
  abbrev pub Ingested : Type 0
  Ingested = Result ServiceError DailyBarIngestionResult × Store

  abbrev pub run_or_replay : Text → Fetched → Store → Result ServiceError Start → Ingested
  run_or_replay symbol fetched s (err e) = (err e, s)
  run_or_replay symbol fetched s (ok (begun, replay, s')) =
      if replay
      then (
        ok (
            result_from_batch begun.batch begun.provider.provider_code begun.feed.feed_code symbol
              true),
        s',
      )
      else handled w symbol begun (run_started_batch w symbol begun fetched s')

  -- The run of a normalized symbol under an effective request identifier.
  abbrev pub ingest_normalized : Text → Text → Fetched → Store → Ingested
  ingest_normalized symbol request fetched s =
      let started = start_batch w symbol request s in
      if is_empty symbol then (err empty_symbol, s) else run_or_replay symbol fetched s started

  -- `generated` is what the identifier generator would give, and `fetched` what the client does.
  unfoldable pub ingest : Text → Option Text → Text → Fetched → Store → Ingested
  unfolding run_started_batch mark_unexpected_started_failure start_batch result_from_batch strip
      normalize_brsapi_symbol
  ingest symbol request generated fetched s =
      ingest_normalized (normalize_brsapi_symbol w.libraries symbol) (effective request generated)
        fetched s
