-- ===== src/Ingestion/Tests.antt =====
-- A batch that is started twice under one request and finalized, and the theorems at it.
use bisfin.Ingestion.Watermark.{isoformat}
use bisfin.Ingestion.Batches.Idempotent.{create_batch_if_absent_again}
use bisfin.Ingestion.Transitions.Absorbing.{run_operations_closed}
use bisfin.Base.Int.{pos, ◌+ℤ◌}
use bisfin.Base.Result.{ok}
use bisfin.Ingestion.Transitions.Consistent.{AreConsistent, run_operations-AreConsistent}
use bisfin.Ingestion.Transitions.{
  Finalization, run_operations, mark, Operation, start, finalize, finalized,
}
use bisfin.Base.Texts.{Text, codes}
use bisfin.Base.{List, ◌∷◌, [], ℕ, ◌≡◌, some, false, refl, none, true}
use bisfin.Ingestion.Batches.{
  NewBatch, get_by_id, IngestionBatch, create_batch_if_absent, BatchTable, partial, row_of,
  check_row, get_by_request_id, has_feed,
}

abbrev request : NewBatch
request = record {
  feed_id = 3;
  parser_version = codes "v1";
  request_id = some (codes "r1");
  requested_event_from = some 10;
  requested_event_to = some 20;
  source_watermark = none;
  metadata = none;
  started_at = none;
}

abbrev table : BatchTable
table = record { batches = []; next_id = 1; feeds = 3 ∷ [] }

abbrev batch : IngestionBatch
batch = row_of 100 1 request

abbrev table_with_batch : BatchTable
table_with_batch = record { batches = batch ∷ []; next_id = 2; feeds = 3 ∷ [] }

starts :
    create_batch_if_absent 100 request table
    ≡ ok (record { batch = batch; created = true }, table_with_batch)
unfolding create_batch_if_absent check_row ◌+ℤ◌ get_by_request_id has_feed
starts = refl

create_batch_if_absent_again_example :
    create_batch_if_absent 200 request table_with_batch
    ≡ ok (record { batch = batch; created = false }, table_with_batch)
create_batch_if_absent_again_example =
    create_batch_if_absent_again 100 200 request (codes "r1") table table_with_batch
      (record { batch = batch; created = true }) refl starts

abbrev final : Finalization
final = record {
  status = partial;
  received_row_count = pos 3;
  accepted_row_count = pos 2;
  rejected_row_count = pos 1;
  payload_sha256 = none;
  source_watermark = none;
  error_summary = some (codes "one row");
  metadata = none;
  finished_at = none;
}

abbrev calls : List (ℕ × Operation)
calls = (100, start request) ∷ (120, finalize 1 final) ∷ (130, mark 1) ∷ []

abbrev redact : Text → Text
redact t = t

abbrev closed_batch : IngestionBatch
closed_batch = finalized redact 120 final batch

closes : get_by_id 1 (run_operations redact calls table).batches ≡ some closed_batch
unfolding run_operations ◌+ℤ◌ check_row get_by_request_id has_feed
closes = refl

found : get_by_id 1 (closed_batch ∷ []) ≡ some closed_batch
unfolding get_by_id
found = refl

run_operations_closed_example :
    get_by_id 1
      (run_operations redact
        ((150, mark 1) ∷ [])
        (record { batches = closed_batch ∷ []; next_id = 2; feeds = 3 ∷ [] })).batches
    ≡ some closed_batch
run_operations_closed_example =
    run_operations_closed redact ((150, mark 1) ∷ [])
      (record { batches = closed_batch ∷ []; next_id = 2; feeds = 3 ∷ [] }) 1 closed_batch found
      refl

run_operations-AreConsistent_example : AreConsistent (run_operations redact calls table)
run_operations-AreConsistent_example = run_operations-AreConsistent redact calls table tt

test_iso : isoformat 738000 ≡ codes "2021-07-29"
unfolding isoformat
test_iso = refl

test_leap : isoformat 737484 ≡ codes "2020-02-29"
unfolding isoformat
test_leap = refl

test_first : isoformat 1 ≡ codes "0001-01-01"
unfolding isoformat
test_first = refl
