-- ===== src/Ingestion/Service/Ends.antt =====
-- The started batch at the end of `_run_started_batch` of ingestion/service.py.
use bisfin.Ingestion.Service.Transits.{
  unnamed_failure, finalize_expected_failure-IsReported, unnamed_completion,
  canonicalize-IsReported, persist_acquisition-IsOpened, persist_empty_acquisition-IsOpened,
}
use bisfin.Brsapi.Contracts.{ParseError}
use bisfin.Ingestion.Service.Ingest.{
  after_acquisition, canonicalized, fail_with_response, after_persistence, ParserError,
  run_started_batch, parsed_response, parser_failure, marked, no_acquisition, class_of,
  from_provider, from_contract, from_python,
}
use bisfin.Repositories.RawEvents.{RawEvent}
use bisfin.Brsapi.Duplicates.{DailyBarParseResult, parse_unadjusted_daily_candles}
use bisfin.Ingestion.Service.Acquire.{persist_empty_acquisition, persist_acquisition}
use bisfin.Ingestion.Transitions.{merge}
use bisfin.Base.{Option, ◌≡◌, refl, some, none, List, length, Bool-cases, is_some, inl, inr}
use bisfin.Ingestion.Service.Followed.{
  IsOpened, IsReported, IsEnded, finalized_as-IsReported, Request,
}
use bisfin.Ingestion.Batches.{IngestionBatchStatus, failed, quarantined}
use bisfin.Base.Result.{ok, err, Result}
use bisfin.Ingestion.Service.Canonicalize.{Acquired, ResultOf, canonicalize}
use bisfin.Ingestion.Service.Finish.{
  Run, finalize_expected_failure, committed, exception, canonicalization, failure_code,
  mark_unexpected_canonicalization_failure, finalize_no_data, no_data_finalization,
  canonical_failure,
}
use bisfin.Base.Texts.{Text, codes}
use bisfin.Ingestion.Service.{
  World, Started, Store, DailyBarIngestionResult, Fault, BrsApiRawResponse, finishing,
  completion_metadata, no_rows, Fetched, http_error, marking_canonical, api_error, parse,
  other_error, response,
}

module _ (w : World) (symbol : Text) (begun : Started) (r : Request) where
  -- A result comes with the closed batch, a failed canonicalization with a closed batch, and any other
  -- exception leaves it open.
  abbrev pub AfterRun : Run → Type 0
  AfterRun (ok d, s) = IsReported w symbol begun r (d, s)
  AfterRun (err canonicalization, s) = IsEnded w symbol begun r s
  AfterRun (err (exception e), s) = IsOpened w symbol begun r s

  committed-AfterRun :
      (s : Store) (m : ResultOf)
      → IsOpened w symbol begun r s
      → ((x : DailyBarIngestionResult × Store) → m ≡ ok x → IsReported w symbol begun r x)
      → AfterRun (committed s m)
  committed-AfterRun s (ok x) h k = k x refl
  committed-AfterRun s (err e) h k = h

  after_acquisition-AfterRun :
      (code status_text : Text) (preview : Option Text) (status : IngestionBatchStatus) (e : Fault)
      (b : BrsApiRawResponse) (s : Store) (m : Result Fault (Unit × Store))
      → IsOpened w symbol begun r s
      → persist_empty_acquisition w begun b status_text preview s ≡ m
      → AfterRun (
          after_acquisition w symbol begun
            (finalize_expected_failure w symbol begun status code e (some b))
            (no_acquisition s m))
  after_acquisition-AfterRun code status_text preview status e b s (err f) h k = h
  after_acquisition-AfterRun code status_text preview status e b s (ok (u, s')) h k =
      let opened =
        persist_empty_acquisition-IsOpened w symbol begun r b status_text preview s (u, s') h k in
      committed-AfterRun s' (finalize_expected_failure w symbol begun status code e (some b) s')
        opened
        (λ x q.
          finalize_expected_failure-IsReported w symbol begun r status code e (some b) s' x opened
            q)

  fail_with_response-AfterRun :
      (status_text : Text) (preview : Option Text) (status : IngestionBatchStatus) (code : Text)
      (e : Fault) (b : BrsApiRawResponse) (s : Store)
      → IsOpened w symbol begun r s
      → AfterRun (fail_with_response w symbol begun status_text preview status code e b s)
  fail_with_response-AfterRun status_text preview status code e b s h =
      after_acquisition-AfterRun code status_text preview status e b s
        (persist_empty_acquisition w begun b status_text preview s) h refl

  pub reported-IsEnded :
      (x : DailyBarIngestionResult × Store)
      → IsReported w symbol begun r x
      → IsEnded w symbol begun r x.1
  reported-IsEnded x (b, only, from, closed, _) = (b, only, from, closed)

  marked-AfterRun :
      (a : Acquired) (e : Fault) (s : Store) (m : ResultOf)
      → IsOpened w symbol begun r s
      → mark_unexpected_canonicalization_failure w symbol begun a e s ≡ m
      → AfterRun (marked w symbol begun a e s m)
  unfolding mark_unexpected_canonicalization_failure
  marked-AfterRun a e s (err f) h k = h
  marked-AfterRun a e s (ok x) h k = reported-IsEnded x (
      finalized_as-IsReported w symbol begun r marking_canonical
        (canonical_failure w symbol begun a e)
        (merge (completion_metadata (length a.raw_events) no_rows)
          (failure_code (codes "CANONICALIZATION_FAILED")))
        s refl (unnamed_failure (length a.raw_events) no_rows (codes "CANONICALIZATION_FAILED")) h
        k)

  canonicalized-AfterRun :
      (a : Acquired) (s : Store) (m : ResultOf)
      → IsOpened w symbol begun r s
      → canonicalize w symbol begun a s ≡ m
      → AfterRun (canonicalized w symbol begun a s m)
  canonicalized-AfterRun a s (ok x) h k = canonicalize-IsReported w symbol begun r a s x h k
  canonicalized-AfterRun a s (err e) h k =
      marked-AfterRun a e s (mark_unexpected_canonicalization_failure w symbol begun a e s) h refl

  finalize_no_data-IsReported :
      (b : BrsApiRawResponse) (s : Store) (x : DailyBarIngestionResult × Store)
      → IsOpened w symbol begun r s
      → finalize_no_data w symbol begun b s ≡ ok x
      → IsReported w symbol begun r x
  unfolding finalize_no_data
  finalize_no_data-IsReported b s x h k =
      finalized_as-IsReported w symbol begun r finishing (no_data_finalization w symbol begun b)
        (completion_metadata 0 no_rows) s refl (unnamed_completion 0 no_rows) h k

  after_persistence-AfterRun :
      (b : BrsApiRawResponse) (parsed : DailyBarParseResult) (s : Store)
      (m : Result Fault (List RawEvent × Store))
      → IsOpened w symbol begun r s
      → persist_acquisition w symbol begun b parsed s ≡ m
      → AfterRun (after_persistence w symbol begun b parsed s m)
  after_persistence-AfterRun b parsed s (err e) h k = h
  after_persistence-AfterRun b parsed s (ok (es, s')) h k =
      elim (Bool-cases (is_some parsed.no_data_payload)) [
        | inl empty ↦ rw empty (
            committed-AfterRun s' (finalize_no_data w symbol begun b s') opened
              (λ x q. finalize_no_data-IsReported b s' x opened q))
        | inr full ↦
            rw full (
              canonicalized-AfterRun rows_of s' (canonicalize w symbol begun rows_of s') opened
                refl)
      ]
    where
      opened : IsOpened w symbol begun r s'
      opened = persist_acquisition-IsOpened w symbol begun r b parsed s (es, s') h k

      rows_of : Acquired
      rows_of = record { response = b; rows = parsed.rows; raw_events = es }

  parser_failure-AfterRun :
      (c : ParserError) (e : ParseError) (b : BrsApiRawResponse) (s : Store)
      → IsOpened w symbol begun r s
      → AfterRun (parser_failure w symbol begun c e b s)
  parser_failure-AfterRun from_provider e b s h =
      fail_with_response-AfterRun (codes "provider_error") none failed
        (codes "BRSAPI_PROVIDER_ERROR") (parse e) b s h
  parser_failure-AfterRun from_contract e b s h =
      fail_with_response-AfterRun (codes "quarantined_contract") (some b.preview) quarantined
        (codes "BRSAPI_MALFORMED_OR_AMBIGUOUS_RESPONSE") (parse e) b s h
  parser_failure-AfterRun from_python e b s h = h

  parsed_response-AfterRun :
      (b : BrsApiRawResponse) (s : Store) (m : Result ParseError DailyBarParseResult)
      → IsOpened w symbol begun r s
      → AfterRun (parsed_response w symbol begun b s m)
  parsed_response-AfterRun b s (err e) h = parser_failure-AfterRun (class_of e) e b s h
  parsed_response-AfterRun b s (ok parsed) h =
      after_persistence-AfterRun b parsed s (persist_acquisition w symbol begun b parsed s) h refl

  -- An opened batch is reported, closed, or still open, by what the run gives.
  pub run_started_batch-AfterRun :
      (fetched : Fetched) (s : Store)
      → IsOpened w symbol begun r s
      → AfterRun (run_started_batch w symbol begun fetched s)
  unfolding run_started_batch
  run_started_batch-AfterRun (http_error b e) s h =
      fail_with_response-AfterRun (codes "http_error") none failed (codes "BRSAPI_HTTP_ERROR") e b s
        h
  run_started_batch-AfterRun (api_error e) s h =
      committed-AfterRun s
        (finalize_expected_failure w symbol begun failed (codes "BRSAPI_TRANSPORT_ERROR") e none s)
        h
        (λ x q.
          finalize_expected_failure-IsReported w symbol begun r failed
            (codes "BRSAPI_TRANSPORT_ERROR") e none s x h q)
  run_started_batch-AfterRun (other_error e) s h = h
  run_started_batch-AfterRun (response b) s h =
      parsed_response-AfterRun b s (parse_unadjusted_daily_candles w.libraries symbol b.payload) h
