-- ===== src/Ingestion/Batches.antt =====
-- repositories/ingestion_batch_repository.py over the table `ingest.ingestion_batch`, and
-- `terminal_status` of ingestion/daily_bars.py. A statement that the database refuses is the error
-- `integrity_violation`. The redaction of messages and details is a parameter.
pub mod Idempotent
use bisfin.Brsapi.Json.{JsonObject, empty_object}
use bisfin.Base.Int.{ℤ, ltb_ℤ, pos, ◌+ℤ◌}
use bisfin.Base.{
  ℕ, List, Option, Bool, some, if◌then◌else◌, false, true, ◌&&◌, none, leb, not, ltb, ◌∷◌, ◌||◌,
  ◌++◌, is_some, ◌==◌, [], ◌+◌,
}
use bisfin.Base.Result.{Result, err, ◌>>◌, ok, raise_if}
use bisfin.Base.Texts.{Text, same_text}

pub data IngestionBatchStatus : Type 0 where
  running succeeded partial failed quarantined : IngestionBatchStatus

abbrev pub is_running : IngestionBatchStatus → Bool
is_running running = true
is_running succeeded = false
is_running partial = false
is_running failed = false
is_running quarantined = false

pub record IngestionBatch : Type 0 where
  pub ingestion_batch_id : ℕ
  pub feed_id : ℕ
  pub request_id : Option Text
  pub requested_event_from : Option ℕ
  pub requested_event_to : Option ℕ
  pub started_at : ℕ
  pub finished_at : Option ℕ
  pub status : IngestionBatchStatus
  pub received_row_count : ℤ
  pub accepted_row_count : ℤ
  pub rejected_row_count : ℤ
  pub payload_sha256 : Option Text
  pub parser_version : Text
  pub source_watermark : Option Text
  pub error_summary : Option Text
  pub metadata : JsonObject

-- The table, the identity that it assigns next, and the feeds that a row may refer to.
pub record BatchTable : Type 0 where
  pub batches : List IngestionBatch
  pub next_id : ℕ
  pub feeds : List ℕ

pub data IngestionError : Type 0 where
  not_terminal negative_count too_many_rows : IngestionError
  integrity_violation entity_not_found : IngestionError
  invalid_transition : IngestionBatchStatus → IngestionBatchStatus → IngestionError

-- `terminal_status` for counts that are not negative.
unfoldable pub terminal_status : ℕ → ℕ → IngestionBatchStatus
terminal_status accepted rejected =
    if not (accepted == 0) && not (rejected == 0)
    then partial
    else if not (accepted == 0)
    then succeeded
    else if not (rejected == 0)
    then quarantined
    else succeeded

abbrev pub is_negative : ℤ → Bool
is_negative z = ltb_ℤ z (pos 0)

-- `_validate_counts`.
unfoldable pub validate_counts : ℤ → ℤ → ℤ → Result IngestionError Unit
validate_counts received accepted rejected = do
  raise_if (is_negative received || is_negative accepted || is_negative rejected) negative_count
  raise_if (ltb_ℤ received (accepted +ℤ rejected)) too_many_rows

abbrev pub in_order : Option ℕ → Option ℕ → Bool
in_order none b = true
in_order (some a) none = true
in_order (some a) (some b) = ltb a b

abbrev not_before : ℕ → Option ℕ → Bool
not_before a none = true
not_before a (some b) = leb a b

-- The CHECK constraints of the table.
unfoldable pub check_row : IngestionBatch → Bool
check_row b =
    in_order b.requested_event_from b.requested_event_to
    && not_before b.started_at b.finished_at
    && not (is_negative b.received_row_count)
    && not (is_negative b.accepted_row_count)
    && not (is_negative b.rejected_row_count)
    && not (ltb_ℤ b.received_row_count (b.accepted_row_count +ℤ b.rejected_row_count))

unfoldable pub has_feed : ℕ → List ℕ → Bool
has_feed i [] = false
has_feed i (j ∷ js) = (j == i) || has_feed i js

unfoldable pub get_by_id : ℕ → List IngestionBatch → Option IngestionBatch
get_by_id i [] = none
get_by_id i (b ∷ bs) =
    let rest = get_by_id i bs in if b.ingestion_batch_id == i then some b else rest

abbrev same_request : Text → Option Text → Bool
same_request r none = false
same_request r (some q) = same_text q r

unfoldable pub get_by_request_id : ℕ → Text → List IngestionBatch → Option IngestionBatch
get_by_request_id feed r [] = none
get_by_request_id feed r (b ∷ bs) =
    let rest = get_by_request_id feed r bs in
    if (b.feed_id == feed) && same_request r b.request_id then some b else rest

-- The arguments of `create_batch`.
pub record NewBatch : Type 0 where
  pub feed_id : ℕ
  pub parser_version : Text
  pub request_id : Option Text
  pub requested_event_from : Option ℕ
  pub requested_event_to : Option ℕ
  pub source_watermark : Option Text
  pub metadata : Option JsonObject
  pub started_at : Option ℕ

abbrev or_else : {A : Type 0} → Option A → A → A
or_else none d = d
or_else (some a) d = a

-- The inserted row; `now` is CURRENT_TIMESTAMP.
abbrev pub row_of : ℕ → ℕ → NewBatch → IngestionBatch
row_of now i n = record {
  ingestion_batch_id = i;
  feed_id = n.feed_id;
  request_id = n.request_id;
  requested_event_from = n.requested_event_from;
  requested_event_to = n.requested_event_to;
  started_at = or_else n.started_at now;
  finished_at = none;
  status = running;
  received_row_count = pos 0;
  accepted_row_count = pos 0;
  rejected_row_count = pos 0;
  payload_sha256 = none;
  parser_version = n.parser_version;
  source_watermark = n.source_watermark;
  error_summary = none;
  metadata = or_else n.metadata empty_object;
}

abbrev Stored : Type 0
Stored = IngestionBatch × BatchTable

-- The row of the insert, which the UNIQUE constraint did not refuse.
unfoldable pub insert_row : ℕ → NewBatch → BatchTable → Result IngestionError Stored
insert_row now n t = do
  let row = row_of now t.next_id n
  raise_if (not (has_feed n.feed_id t.feeds)) integrity_violation
  ok (row, record t { batches = t.batches ++ row ∷ []; next_id = t.next_id + 1 })

abbrev pub existing : NewBatch → Option Text → BatchTable → Option IngestionBatch
existing n none t = none
existing n (some r) t = get_by_request_id n.feed_id r t.batches

unfoldable pub create_batch : ℕ → NewBatch → BatchTable → Result IngestionError Stored
unfolding insert_row
create_batch now n t = do
  raise_if (not (check_row (row_of now t.next_id n))) integrity_violation
  raise_if (is_some (existing n n.request_id t)) integrity_violation
  insert_row now n t

pub record IngestionBatchStartResult : Type 0 where
  pub batch : IngestionBatch
  pub created : Bool

abbrev pub Started : Type 0
Started = IngestionBatchStartResult × BatchTable

abbrev pub as_created : Result IngestionError Stored → Result IngestionError Started
as_created (err e) = err e
as_created (ok (b, t)) = ok (record { batch = b; created = true }, t)

abbrev pub insert_or_find :
    ℕ → NewBatch → BatchTable → Option IngestionBatch → Result IngestionError Started
insert_or_find now n t (some b) = ok (record { batch = b; created = false }, t)
insert_or_find now n t none = as_created (insert_row now n t)

-- The insert with ON CONFLICT DO NOTHING, then the select of the row that was there.
unfoldable pub create_batch_if_absent : ℕ → NewBatch → BatchTable → Result IngestionError Started
unfolding insert_row
create_batch_if_absent now n t = do
  raise_if (not (check_row (row_of now t.next_id n))) integrity_violation
  insert_or_find now n t (existing n n.request_id t)
