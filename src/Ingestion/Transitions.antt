-- ===== src/Ingestion/Transitions.antt =====
-- The guarded updates of repositories/ingestion_batch_repository.py.
pub mod Absorbing
pub mod Single
pub mod Created
pub mod Followed
pub mod Rows
pub mod Inversion
pub mod Merge
pub mod Consistent
use bisfin.Base.Int.{ℤ}
use bisfin.Base.Result.{Result, ◌>>◌, err, ok, raise_if}
use bisfin.Brsapi.Json.{JsonObject, member, get, empty_object}
use bisfin.Base.Texts.{Text}
use bisfin.Base.{
  ℕ, Option, some, none, Bool, List, if◌then◌else◌, ◌==◌, ◌∷◌, ◌&&◌, [], is_some, take, true, not,
  ◌||◌,
}
use bisfin.Ingestion.Batches.{
  IngestionBatchStatus, create_batch, NewBatch, BatchTable, IngestionBatch, get_by_id,
  validate_counts, failed, IngestionError, create_batch_if_absent, running, succeeded,
  entity_not_found, invalid_transition, check_row, integrity_violation, is_running, is_negative,
  negative_count, not_terminal, partial, quarantined,
}

-- `metadata || patch`: the members of the patch replace those with their keys.
unfoldable pub merge : JsonObject → JsonObject → JsonObject
merge empty_object p = p
merge (member k v o) p = if is_some (get k p) then merge o p else member k v (merge o p)

abbrev pub patched : Option JsonObject → JsonObject → JsonObject
patched none o = o
patched (some p) o = merge o p

abbrev given_or : {A : Type 0} → Option A → Option A → Option A
given_or none old = old
given_or (some a) old = some a

-- `ingestion_batch_id = i AND status = 'RUNNING'`.
abbrev pub is_open : ℕ → IngestionBatch → Bool
is_open i b = (b.ingestion_batch_id == i) && is_running b.status

unfoldable pub open_row : ℕ → List IngestionBatch → Option IngestionBatch
open_row i [] = none
open_row i (b ∷ bs) = let rest = open_row i bs in if is_open i b then some b else rest

unfoldable pub update_rows :
    ℕ → (IngestionBatch → IngestionBatch) → List IngestionBatch → List IngestionBatch
update_rows i f [] = []
update_rows i f (b ∷ bs) = (if is_open i b then f b else b) ∷ update_rows i f bs

-- The updated rows satisfy the constraints of the table.
unfoldable pub valid_update : ℕ → (IngestionBatch → IngestionBatch) → List IngestionBatch → Bool
valid_update i f [] = true
valid_update i f (b ∷ bs) = (not (is_open i b) || check_row (f b)) && valid_update i f bs

abbrev refused_transition : IngestionBatchStatus → Option IngestionBatch → IngestionError
refused_transition target none = entity_not_found
refused_transition target (some b) = invalid_transition b.status target

-- `_execute_running_transition` of an UPDATE ... RETURNING.
abbrev transition :
    ℕ
    → IngestionBatchStatus
    → (IngestionBatch → IngestionBatch)
    → BatchTable
    → Option IngestionBatch
    → Result IngestionError (IngestionBatch × BatchTable)
transition i target f t none = err (refused_transition target (get_by_id i t.batches))
transition i target f t (some b) =
    if valid_update i f t.batches
    then ok (f b, record t { batches = update_rows i f t.batches })
    else err integrity_violation

pub record Acquisition : Type 0 where
  pub payload_sha256 : Text
  pub received_row_count : ℤ
  pub source_watermark : Option Text
  pub metadata : Option JsonObject

pub record Finalization : Type 0 where
  pub status : IngestionBatchStatus
  pub received_row_count : ℤ
  pub accepted_row_count : ℤ
  pub rejected_row_count : ℤ
  pub payload_sha256 : Option Text
  pub source_watermark : Option Text
  pub error_summary : Option Text
  pub metadata : Option JsonObject
  pub finished_at : Option ℕ

-- What `_failure_payload` makes of an error, and the instant.
pub record Failure : Type 0 where
  pub summary : Text
  pub metadata_patch : JsonObject
  pub finished_at : Option ℕ

abbrev pub acquired : Acquisition → IngestionBatch → IngestionBatch
acquired a b = record b {
  payload_sha256 = some a.payload_sha256;
  received_row_count = a.received_row_count;
  source_watermark = given_or a.source_watermark b.source_watermark;
  metadata = patched a.metadata b.metadata;
}

abbrev redacted : (Text → Text) → Option Text → Option Text
redacted redact none = none
redacted redact (some t) = some (take 2048 (redact t))

-- No summary of a success; otherwise the redacted one, of 2048 characters at most.
abbrev summary_of : (Text → Text) → IngestionBatchStatus → Option Text → Option Text
summary_of redact succeeded e = none
summary_of redact running e = redacted redact e
summary_of redact partial e = redacted redact e
summary_of redact failed e = redacted redact e
summary_of redact quarantined e = redacted redact e

abbrev at_time : Option ℕ → ℕ → ℕ
at_time none now = now
at_time (some t) now = t

abbrev pub finalized : (Text → Text) → ℕ → Finalization → IngestionBatch → IngestionBatch
finalized redact now f b = record b {
  status = f.status;
  finished_at = some (at_time f.finished_at now);
  received_row_count = f.received_row_count;
  accepted_row_count = f.accepted_row_count;
  rejected_row_count = f.rejected_row_count;
  error_summary = summary_of redact f.status f.error_summary;
  payload_sha256 = given_or f.payload_sha256 b.payload_sha256;
  source_watermark = given_or f.source_watermark b.source_watermark;
  metadata = patched f.metadata b.metadata;
}

abbrev marked_failed : ℕ → Failure → IngestionBatch → IngestionBatch
marked_failed now f b = record b {
  status = failed;
  finished_at = some (at_time f.finished_at now);
  error_summary = some f.summary;
  metadata = merge b.metadata f.metadata_patch;
}

unfoldable pub mark_running : ℕ → BatchTable → Result IngestionError (IngestionBatch × BatchTable)
unfolding open_row update_rows valid_update get_by_id
mark_running i t =
    transition i running (λ b. record b { status = running }) t (open_row i t.batches)

unfoldable pub record_acquisition :
    ℕ → Acquisition → BatchTable → Result IngestionError (IngestionBatch × BatchTable)
unfolding open_row update_rows valid_update get_by_id merge
record_acquisition i a t = do
  raise_if (is_negative a.received_row_count) negative_count
  transition i running (acquired a) t (open_row i t.batches)

unfoldable pub finalize_batch :
    (Text → Text)
    → ℕ
    → ℕ
    → Finalization
    → BatchTable
    → Result IngestionError (IngestionBatch × BatchTable)
unfolding open_row update_rows valid_update get_by_id merge validate_counts
finalize_batch redact now i f t = do
  raise_if (is_running f.status) not_terminal
  validate_counts f.received_row_count f.accepted_row_count f.rejected_row_count
  transition i f.status (finalized redact now f) t (open_row i t.batches)

-- `mark_succeeded`, for a finalization whose status is passed over.
abbrev mark_succeeded :
    (Text → Text)
    → ℕ
    → ℕ
    → Finalization
    → BatchTable
    → Result IngestionError (IngestionBatch × BatchTable)
mark_succeeded redact now i f t =
    finalize_batch redact now i (record f { status = succeeded; error_summary = none }) t

unfoldable pub mark_failed :
    ℕ → ℕ → Failure → BatchTable → Result IngestionError (IngestionBatch × BatchTable)
unfolding open_row update_rows valid_update get_by_id merge
mark_failed now i f t = transition i failed (marked_failed now f) t (open_row i t.batches)

-- The calls that change the table.
pub data Operation : Type 0 where
  create start : NewBatch → Operation
  mark : ℕ → Operation
  acquire : ℕ → Acquisition → Operation
  finalize succeed : ℕ → Finalization → Operation
  fail : ℕ → Failure → Operation

abbrev table_of : {A : Type 0} → BatchTable → Result IngestionError (A × BatchTable) → BatchTable
table_of t (err e) = t
table_of t (ok (a, t')) = t'

-- The table after a call at an instant; a call that raises leaves it as it was.
unfoldable pub after : (Text → Text) → ℕ → Operation → BatchTable → BatchTable
unfolding create_batch create_batch_if_absent mark_running record_acquisition finalize_batch
    mark_failed
after redact now (create n) t = table_of t (create_batch now n t)
after redact now (start n) t = table_of t (create_batch_if_absent now n t)
after redact now (mark i) t = table_of t (mark_running i t)
after redact now (acquire i a) t = table_of t (record_acquisition i a t)
after redact now (finalize i f) t = table_of t (finalize_batch redact now i f t)
after redact now (succeed i f) t = table_of t (mark_succeeded redact now i f t)
after redact now (fail i f) t = table_of t (mark_failed now i f t)

unfoldable pub run_operations : (Text → Text) → List (ℕ × Operation) → BatchTable → BatchTable
unfolding after
run_operations redact [] t = t
run_operations redact ((now, op) ∷ ops) t = run_operations redact ops (after redact now op t)
