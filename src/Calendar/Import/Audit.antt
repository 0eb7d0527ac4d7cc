-- ===== src/Calendar/Import/Audit.antt =====
-- The raw events of a calendar: transaction B of `import_calendar`.
use bisfin.Ingestion.Service.{referenced}
use bisfin.Repositories.{Referenced, RepositoryError}
use bisfin.Base.Texts.{Text, codes}
use bisfin.Brsapi.Json.{JsonValue, JsonObject, null, member, str, bool, object, empty_object}
use bisfin.Calendar.Manifest.{CalendarManifest, ValidatedCalendarSession}
use bisfin.Repositories.RawEvents.{
  ensure_month_partition, insert_response_record, ResponseRecord, RawEventTable,
  RawEventValidationStatus,
}
use bisfin.Base.{Option, ℕ, ◌+◌, if◌then◌else◌, ◌/◌, ◌++◌, some, ◌%◌, List, ◌==◌, none, [], ◌∷◌}
use bisfin.Ingestion.Watermark.{isoformat}
use bisfin.Calendar.Import.{
  CalendarWorld, CalendarStore, CalendarValidationResult, get_feed_by_codes, CalendarFault,
  starting, auditing, calendar_feed, repository, database,
}
use bisfin.Base.Result.{Result, ok, ◌>>=◌, commit, map_err}

abbrev digits : ℕ → Text
digits n = (b'0' + n / 10 % 10) ∷ (b'0' + n % 10) ∷ []

abbrev fraction : ℕ → Text
fraction n = if n == 0 then [] else b'.' ∷ digits (n / 10000) ++ (digits (n / 100) ++ digits n)

-- `time.isoformat()` of a number of microseconds.
unfoldable pub time_isoformat : ℕ → Text
time_isoformat t =
    digits (t / 3600000000)
    ++ (b':' ∷ digits (t / 60000000 % 60)
        ++ (b':' ∷ digits (t / 1000000 % 60) ++ fraction (t % 1000000)))

abbrev time_value : Option ℕ → JsonValue
time_value none = null
time_value (some t) = str (time_isoformat t)

-- The audited dict of a session.
abbrev pub raw_session : CalendarManifest → ValidatedCalendarSession → JsonObject
raw_session m s = member (codes "calendar_id") (str m.calendar_id) (
    member (codes "venue_code") (str m.venue_code) (
      member (codes "timezone") (str m.timezone) (
        member (codes "trading_date") (str (isoformat s.trading_date)) (
          member (codes "session_code") (str (codes "REGULAR")) (
            member (codes "is_trading_day") (bool s.is_trading_day) (
              member (codes "open_local_time") (time_value s.open_local_time) (
                member (codes "close_local_time") (time_value s.close_local_time) (
                  member (codes "source_status") (str s.source_status)
                    (member (codes "metadata") (object s.metadata) empty_object)))))))))

unfoldable pub calendar_source_record_key : CalendarManifest → ValidatedCalendarSession → Text
unfolding isoformat
calendar_source_record_key m s =
    codes "bisfin|calendar|"
    ++ (m.calendar_id ++ (b'|' ∷ m.venue_code ++ (codes "|REGULAR|" ++ isoformat s.trading_date)))

module _ (w : CalendarWorld) (v : CalendarValidationResult) (batch_id feed : ℕ) where
  abbrev session_record : ValidatedCalendarSession → ResponseRecord
  session_record s = record {
    ingested_at = w.now starting;
    ingestion_batch_id = batch_id;
    feed_id = feed;
    source_record_key = some (calendar_source_record_key v.manifest s);
    source_event_time_text = none;
    source_date_text = some (isoformat s.trading_date);
    source_sequence = none;
    observed_at = none;
    payload_sha256 = w.sha256_json (raw_session v.manifest s);
    raw_payload = raw_session v.manifest s;
    validation_status = RawEventValidationStatus.accepted;
    validation_errors = [];
  }

  -- The loop over the sessions.
  unfoldable pub insert_sessions :
      Referenced
      → List ValidatedCalendarSession
      → RawEventTable
      → Result RepositoryError RawEventTable
  unfolding insert_response_record calendar_source_record_key time_isoformat isoformat
  insert_sessions refs [] t = ok t
  insert_sessions refs (s ∷ ss) t = do
    stored ← insert_response_record refs (session_record s) t
    insert_sessions refs ss stored.1

-- Transaction B.
unfoldable pub audit_sessions :
    CalendarWorld
    → CalendarValidationResult
    → ℕ
    → CalendarStore
    → Result CalendarFault CalendarStore
unfolding insert_sessions ensure_month_partition get_feed_by_codes
audit_sessions w v batch_id s = commit (w.faults auditing) database do
  feed ← calendar_feed s
  events ← map_err repository (
      insert_sessions w v batch_id feed.feed_id (referenced s.store) v.sessions
        (ensure_month_partition (w.now starting) s.store.raw_events))
  ok (record s { store = record s.store { raw_events = events } })
