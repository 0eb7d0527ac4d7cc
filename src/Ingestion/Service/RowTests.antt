-- ===== src/Ingestion/Service/RowTests.antt =====
-- A response with one bar and one row without a candidate, and the theorem of the counts at it.
use bisfin.Repositories.Catalog.{instrument_by_id}
use bisfin.Decimal.{dec, lt, below_zero}
use bisfin.Base.Result.{ok, err}
use bisfin.Brsapi.Json.{empty_object}
use bisfin.Base.Int.{pos, ◌+ℤ◌}
use bisfin.Base.Texts.{codes, same_text}
use bisfin.Repositories.RawEvents.{RawEvent, pending}
use bisfin.Ingestion.Service.Totals.{IsTallied, canonicalize-IsTallied}
use bisfin.Brsapi.Contracts.{ParsedDailyBarCandidate, RowValidationResult, malformed}
use bisfin.Ingestion.Batches.{IngestionBatch, running, has_feed, check_row}
use bisfin.Ingestion.Service.Canonicalize.{canonicalize, Acquired, ResultOf}
use bisfin.Base.{ℕ, ◌≡◌, Option, some, ◌∷◌, ◌+◌, none, [], false, refl, true}
use bisfin.Ingestion.Service.{Store, Tally, DailyBarIngestionResult, Started, result_from_batch}
use bisfin.Ingestion.Service.Tests.{world, opened, store}

abbrev running_batch : IngestionBatch
running_batch = record {
  ingestion_batch_id = 1;
  feed_id = 3;
  request_id = some (codes "r1");
  requested_event_from = none;
  requested_event_to = none;
  started_at = opened;
  finished_at = none;
  status = running;
  received_row_count = pos 2;
  accepted_row_count = pos 0;
  rejected_row_count = pos 0;
  payload_sha256 = some (codes "ab");
  parser_version = codes "1";
  source_watermark = none;
  error_summary = none;
  metadata = empty_object;
}

abbrev raw_event : ℕ → RawEvent
raw_event i = record {
  identity = record { ingested_at = opened + 30; raw_event_id = i };
  ingestion_batch_id = 1;
  feed_id = 3;
  source_record_key = none;
  source_event_time_text = none;
  source_date_text = none;
  source_sequence = some i;
  observed_at = none;
  payload_sha256 = codes "ab";
  raw_payload = empty_object;
  validation_status = pending;
  validation_errors = [];
}

abbrev parsed_bar : ParsedDailyBarCandidate
parsed_bar = record {
  source_sequence = 1;
  original_symbol = codes "abc";
  normalized_symbol = codes "abc";
  source_date_text = codes "1400/05/07";
  source_time_text = none;
  source_time = none;
  trading_date = 738000;
  open_price = dec 100;
  high = dec 120;
  low = dec 90;
  close = dec 110;
  volume = dec 7;
  raw_payload = empty_object;
  row_payload_sha256 = codes "ab";
}

abbrev result_row : ℕ → Option ParsedDailyBarCandidate → RowValidationResult
result_row i candidate = record {
  source_sequence = i;
  raw_payload = empty_object;
  candidate = candidate;
  errors = [];
  warnings = [];
  include_in_canonicalization = true;
}

abbrev acquired_rows : Acquired
acquired_rows = record {
  response = record {
    status_code = pos 200;
    headers = empty_object;
    payload = err malformed;
    payload_sha256 = codes "ab";
    preview = [];
    response_received_at = opened + 20;
    received_at_text = [];
    elapsed_ms = pos 5;
  };
  rows = result_row 1 (some parsed_bar) ∷ result_row 2 none ∷ [];
  raw_events = raw_event 1 ∷ raw_event 2 ∷ [];
}

abbrev begun : Started
begun = record {
  provider = record { provider_id = 1; provider_code = codes "BRSAPI" };
  feed = record { feed_id = 3; provider_id = 1; feed_code = codes "DAILY" };
  batch = running_batch;
}

abbrev acquired_store : Store
acquired_store = record store {
  batches = record store.batches { batches = running_batch ∷ []; next_id = 2 };
  raw_events = record store.raw_events {
    events = raw_event 1 ∷ raw_event 2 ∷ [];
    next_raw_event_id = 3;
    months = 737972 ∷ [];
  };
}

-- What the batch reports before the run.
abbrev before : DailyBarIngestionResult
before = result_from_batch running_batch (codes "BRSAPI") (codes "DAILY") (codes "abc") false

abbrev value_or : DailyBarIngestionResult × Store → ResultOf → DailyBarIngestionResult × Store
value_or other (err e) = other
value_or other (ok r) = r

abbrev outcome : DailyBarIngestionResult × Store
outcome =
    value_or (before, acquired_store)
      (canonicalize world (codes "abc") begun acquired_rows acquired_store)

outcome_is : canonicalize world (codes "abc") begun acquired_rows acquired_store ≡ ok outcome
unfolding canonicalize same_text has_feed instrument_by_id lt below_zero ◌+ℤ◌ check_row
outcome_is = refl

-- One bar is inserted, and one row rejected.
one_inserted : outcome.0.bar_inserted_count ≡ pos 1
unfolding canonicalize same_text has_feed instrument_by_id lt below_zero ◌+ℤ◌ check_row
one_inserted = refl

one_rejected : outcome.0.rejected_count ≡ pos 1
unfolding canonicalize same_text has_feed instrument_by_id lt below_zero ◌+ℤ◌ check_row
one_rejected = refl

canonicalize-IsTallied_example : (y : Tally) × IsTallied 2 y outcome.0
canonicalize-IsTallied_example =
    canonicalize-IsTallied world (codes "abc") begun acquired_rows acquired_store outcome_is
