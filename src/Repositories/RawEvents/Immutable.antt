-- ===== src/Repositories/RawEvents/Immutable.antt =====
-- What the operations of repositories/raw_event_repository.py leave of the stored events.
use bisfin.Base.Result.{ok, ok_injective}
use bisfin.Base.Texts.{Text}
use bisfin.Brsapi.Json.{JsonObject}
use bisfin.Base.{
  ℕ, List, Option, ◌≡◌, map, ◌∷◌, some, Bool-cases, inl, inr, [], refl, arith, false, ap, subst,
  some_injective, none, true,
}
use bisfin.Repositories.RawEvents.{
  RawEventIdentity, update_validation_result, find_event, update_events, RawEvent,
  RawEventValidationStatus, RawEventTable, validated, Inserted, same_identity, updated_or_missing,
}

-- What a provider sent, without the outcome of its validation.
pub record Payload : Type 0 where
  pub identity : RawEventIdentity
  pub ingestion_batch_id : ℕ
  pub feed_id : ℕ
  pub source_record_key : Option Text
  pub source_event_time_text : Option Text
  pub source_date_text : Option Text
  pub source_sequence : Option ℕ
  pub observed_at : Option ℕ
  pub payload_sha256 : Text
  pub raw_payload : JsonObject

abbrev payload_of : RawEvent → Payload
payload_of e = record {
  identity = e.identity;
  ingestion_batch_id = e.ingestion_batch_id;
  feed_id = e.feed_id;
  source_record_key = e.source_record_key;
  source_event_time_text = e.source_event_time_text;
  source_date_text = e.source_date_text;
  source_sequence = e.source_sequence;
  observed_at = e.observed_at;
  payload_sha256 = e.payload_sha256;
  raw_payload = e.raw_payload;
}

map-update_events :
    (i : RawEventIdentity) (s : RawEventValidationStatus) (errors : List JsonObject)
    (es : List RawEvent)
    → map payload_of (update_events i (validated s errors) es) ≡ map payload_of es
unfolding update_events
map-update_events i s errors [] = refl
map-update_events i s errors (e ∷ es) = elim (Bool-cases (same_identity e.identity i)) [
  | inl same ↦ rw (same, map-update_events i s errors es) refl
  | inr other ↦ rw (other, map-update_events i s errors es) refl
]

module _ (i : RawEventIdentity) (s : RawEventValidationStatus) (errors : List JsonObject) where
  find_event-updated :
      (es : List RawEvent) {e : RawEvent}
      → find_event i es ≡ some e
      → find_event i (update_events i (validated s errors) es) ≡ some (validated s errors e)
  unfolding find_event update_events
  find_event-updated [] h = absurd (ground arith)
  find_event-updated (d ∷ es) {e} h = elim (Bool-cases (same_identity d.identity i)) [
    | inl same ↦
        rw (same, same)
          (ap (λ (x : RawEvent). some (validated s errors x)) (some_injective (rw same at h)))
    | inr other ↦ rw (other, other) (find_event-updated es (rw other at h))
  ]

  distinct :
      (d j : RawEventIdentity)
      → same_identity d i ≡ true
      → same_identity i j ≡ false
      → same_identity d j ≡ false
  distinct d j p q = ground arith

  find_event-other :
      (j : RawEventIdentity) (es : List RawEvent)
      → same_identity i j ≡ false
      → find_event j (update_events i (validated s errors) es) ≡ find_event j es
  unfolding find_event update_events
  find_event-other j [] h = refl
  find_event-other j (d ∷ es) h = elim (Bool-cases (same_identity d.identity i)) [
    | inl same ↦ rw (same, distinct d.identity j same h) (find_event-other j es h)
    | inr other ↦ rw (other, find_event-other j es h) refl
  ]

  abbrev pub IsUpdate : RawEventTable → Inserted → Type 0
  IsUpdate t (e, t') =
      (map payload_of t'.events ≡ map payload_of t.events)
      × (find_event i t'.events ≡ some e)
      × ((e.validation_status ≡ s) × (e.validation_errors ≡ errors))
      × ((j : RawEventIdentity)
          → same_identity i j ≡ false
          → find_event j t'.events ≡ find_event j t.events)

  updated_or_missing-IsUpdate :
      (t : RawEventTable) (o : Option RawEvent) {w : Inserted}
      → find_event i t.events ≡ o
      → updated_or_missing i s errors t o ≡ ok w
      → IsUpdate t w
  updated_or_missing-IsUpdate t none e h = absurd (ground arith)
  updated_or_missing-IsUpdate t (some d) e h = subst (IsUpdate t) (ok_injective h) (
    map-update_events i s errors t.events,
    find_event-updated t.events e,
    (refl, refl),
    λ j k. find_event-other j t.events k,
  )

  -- A successful update leaves what every event was received with, gives the event of the identity
  -- the status and the errors, and leaves the events of other identities as they were.
  pub update_validation_result-IsUpdate :
      (t : RawEventTable) {w : Inserted}
      → update_validation_result i s errors t ≡ ok w
      → IsUpdate t w
  unfolding update_validation_result
  update_validation_result-IsUpdate t h =
      updated_or_missing-IsUpdate t (find_event i t.events) refl h
