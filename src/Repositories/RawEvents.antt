-- ===== src/Repositories/RawEvents.antt =====
-- repositories/raw_event_repository.py over the table `ingest.raw_event`, with the records of
-- domain/ingestion.py. JSON values are stored as such; their texts are not modelled.
pub mod Immutable
use bisfin.Base.Result.{Result, err, ◌>>◌, raise_if, ok}
use bisfin.Base.Sort.{sorted}
use bisfin.Brsapi.Json.{JsonObject}
use bisfin.Repositories.Bars.{first_of_month, add_month, microseconds_per_day, has}
use bisfin.Base.Texts.{Text, same_text}
use bisfin.Base.{
  Option, List, Bool, ℕ, ltb, ◌∷◌, true, ◌==◌, none, leb, ◌/◌, some, length, [], ◌&&◌, ◌||◌, keep,
  if◌then◌else◌, false, not, ◌++◌, ◌+◌,
}
use bisfin.Repositories.{
  Referenced, RepositoryError, entity_not_found, value_error, integrity_violation,
}

pub data RawEventValidationStatus : Type 0 where
  pending accepted rejected quarantined : RawEventValidationStatus

pub record RawEventIdentity : Type 0 where
  pub ingested_at : ℕ
  pub raw_event_id : ℕ

pub record RawEvent : Type 0 where
  pub identity : RawEventIdentity
  pub ingestion_batch_id : ℕ
  pub feed_id : ℕ
  pub source_record_key : Option Text
  pub source_event_time_text : Option Text
  pub source_date_text : Option Text
  pub source_sequence : Option ℕ
  pub observed_at : Option ℕ
  pub payload_sha256 : Text
  pub raw_payload : JsonObject
  pub validation_status : RawEventValidationStatus
  pub validation_errors : List JsonObject

-- The table, its next identity, and the months that have a partition.
pub record RawEventTable : Type 0 where
  pub events : List RawEvent
  pub next_raw_event_id : ℕ
  pub months : List ℕ

-- The arguments of `insert_response_record`.
pub record ResponseRecord : Type 0 where
  pub ingested_at : ℕ
  pub ingestion_batch_id : ℕ
  pub feed_id : ℕ
  pub source_record_key : Option Text
  pub source_event_time_text : Option Text
  pub source_date_text : Option Text
  pub source_sequence : Option ℕ
  pub observed_at : Option ℕ
  pub payload_sha256 : Text
  pub raw_payload : JsonObject
  pub validation_status : RawEventValidationStatus
  pub validation_errors : List JsonObject

-- `[0-9a-f]`.
abbrev is_hex : ℕ → Bool
is_hex c = (leb b'0' c && leb c b'9') || (leb b'a' c && leb c b'f')

unfoldable all_hex : Text → Bool
all_hex [] = true
all_hex (c ∷ cs) = is_hex c && all_hex cs

-- `_SHA256.fullmatch`.
unfoldable is_sha256 : Text → Bool
unfolding all_hex
is_sha256 t = (length t == 64) && all_hex t

abbrev month_of : ℕ → ℕ
month_of ts = first_of_month (ts / microseconds_per_day)

unfoldable pub ensure_month_partition : ℕ → RawEventTable → RawEventTable
unfolding first_of_month
ensure_month_partition ts t = record t { months = add_month (month_of ts) t.months }

abbrev new_event : ℕ → ResponseRecord → RawEvent
new_event i r = record {
  identity = record { ingested_at = r.ingested_at; raw_event_id = i };
  ingestion_batch_id = r.ingestion_batch_id;
  feed_id = r.feed_id;
  source_record_key = r.source_record_key;
  source_event_time_text = r.source_event_time_text;
  source_date_text = r.source_date_text;
  source_sequence = r.source_sequence;
  observed_at = r.observed_at;
  payload_sha256 = r.payload_sha256;
  raw_payload = r.raw_payload;
  validation_status = r.validation_status;
  validation_errors = r.validation_errors;
}

abbrev pub Inserted : Type 0
Inserted = RawEvent × RawEventTable

unfoldable pub insert_response_record :
    Referenced → ResponseRecord → RawEventTable → Result RepositoryError Inserted
unfolding is_sha256 first_of_month
insert_response_record refs r t = do
  raise_if (not (is_sha256 r.payload_sha256)) value_error
  raise_if (not (refs.has_batch r.ingestion_batch_id)) integrity_violation
  raise_if (not (refs.has_feed r.feed_id)) integrity_violation
  raise_if (not (has (month_of r.ingested_at) t.months)) integrity_violation
  let e = new_event t.next_raw_event_id r
  ok (e, record t { events = t.events ++ e ∷ []; next_raw_event_id = t.next_raw_event_id + 1 })

abbrev pub same_identity : RawEventIdentity → RawEventIdentity → Bool
same_identity i j = (i.ingested_at == j.ingested_at) && (i.raw_event_id == j.raw_event_id)

unfoldable pub find_event : RawEventIdentity → List RawEvent → Option RawEvent
find_event i [] = none
find_event i (e ∷ es) =
    let rest = find_event i es in if same_identity e.identity i then some e else rest

abbrev pub validated : RawEventValidationStatus → List JsonObject → RawEvent → RawEvent
validated s errors e = record e { validation_status = s; validation_errors = errors }

unfoldable pub update_events :
    RawEventIdentity → (RawEvent → RawEvent) → List RawEvent → List RawEvent
update_events i f [] = []
update_events i f (e ∷ es) = (if same_identity e.identity i then f e else e) ∷ update_events i f es

abbrev updated_or_missing :
    RawEventIdentity
    → RawEventValidationStatus
    → List JsonObject
    → RawEventTable
    → Option RawEvent
    → Result RepositoryError Inserted
updated_or_missing i s errors t none = err entity_not_found
updated_or_missing i s errors t (some e) =
    ok (validated s errors e, record t { events = update_events i (validated s errors) t.events })

unfoldable pub update_validation_result :
    RawEventIdentity
    → RawEventValidationStatus
    → List JsonObject
    → RawEventTable
    → Result RepositoryError Inserted
unfolding find_event update_events
update_validation_result i s errors t = updated_or_missing i s errors t (find_event i t.events)

abbrev is_identical : ℕ → Text → Text → RawEvent → Bool
is_identical feed key digest e =
    (e.feed_id == feed)
    && (elim e.source_record_key [ none ↦ false | some k ↦ same_text k key ])
    && same_text e.payload_sha256 digest

-- `ingested_at`, then `raw_event_id`.
abbrev event_le : RawEvent → RawEvent → Bool
event_le d e =
    ltb d.identity.ingested_at e.identity.ingested_at
    || ((d.identity.ingested_at == e.identity.ingested_at)
        && leb d.identity.raw_event_id e.identity.raw_event_id)

abbrev later_event : RawEvent → Option RawEvent → RawEvent
later_event e none = e
later_event e (some d) = if event_le e d then d else e

-- The last of the identical events by `event_le`.
unfoldable latest_identical : ℕ → Text → Text → List RawEvent → Option RawEvent
latest_identical feed key digest [] = none
latest_identical feed key digest (e ∷ es) =
    let rest = latest_identical feed key digest es in
    if is_identical feed key digest e then some (later_event e rest) else rest

unfoldable find_identical_record :
    ℕ → Text → Text → RawEventTable → Result RepositoryError (Option RawEvent)
unfolding is_sha256 latest_identical
find_identical_record feed key digest t = do
  raise_if (not (is_sha256 digest)) value_error
  ok (latest_identical feed key digest t.events)

unfoldable list_by_batch : ℕ → RawEventTable → List RawEvent
list_by_batch i t = sorted event_le (keep (λ (e : RawEvent). e.ingestion_batch_id == i) t.events)
