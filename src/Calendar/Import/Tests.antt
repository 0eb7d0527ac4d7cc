-- ===== src/Calendar/Import/Tests.antt =====
-- The import of two days into an empty table, and the theorem at it.
use bisfin.Base.Int.{◌+ℤ◌}
use bisfin.Calendar.Import.{CalendarStep}
use bisfin.Brsapi.Json.{empty_object}
use bisfin.Calendar.Manifest.{ValidatedCalendarSession}
use bisfin.Ingestion.Batches.{
  succeeded, IngestionBatchStatus, failed, IngestionBatch, check_row, get_by_request_id, has_feed,
}
use bisfin.Repositories.Catalog.{TradingSession}
use bisfin.Repositories.TradingCalendar.{expected_session}
use bisfin.Calendar.Import.Write.{import_calendar}
use bisfin.Base.Texts.{Text, codes, same_text}
use bisfin.Calendar.Import.{
  CalendarValidationResult, CalendarWorld, CalendarStore, CalendarFault, CalendarImportResult,
  conflict,
}
use bisfin.Base.{List, [], ℕ, Bool, true, none, ◌≡◌, false, Option, some, refl, ◌∷◌, ◌+◌}
use bisfin.Calendar.Import.Atomic.{import_calendar-IsImported, IsImported}
use bisfin.Base.Result.{ok, err, Result}

abbrev sha : Text
sha = codes "0123456789abcdef0123456789abcdef0123456789abcdef0123456789abcdef"

abbrev world : CalendarWorld
world = record {
  sha256_json = λ o. sha;
  same_metadata = λ a b. true;
  redact = λ t. t;
  conflict_text = codes "conflict";
  now = λ step. 63763200000000200;
  current = λ step. 9;
  faults = λ step. false;
}

abbrev imported_session : ℕ → Bool → Option ℕ → Option ℕ → ValidatedCalendarSession
imported_session date trading opened closed = record {
  trading_date = date;
  is_trading_day = trading;
  open_local_time = none;
  close_local_time = none;
  session_open_ts = opened;
  session_close_ts = closed;
  settlement_date = none;
  source_status = codes "official";
  metadata = empty_object;
}

abbrev calendar : CalendarValidationResult
calendar = record {
  manifest = record {
    calendar_id = codes "c";
    venue_code = codes "V";
    timezone = codes "UTC";
    date_from = 738000;
    date_to = 738001;
    sessions = [];
  };
  payload_sha256 = sha;
  sessions =
      imported_session 738000 true (some 10) (some 20)
      ∷ imported_session 738001 false none none
      ∷ [];
}

abbrev catalog_sessions : List TradingSession → CalendarStore
catalog_sessions ss = record {
  venues = record { venue_id = 2; venue_code = codes "V"; timezone_name = codes "UTC" } ∷ [];
  store = record {
    catalog = record {
      providers = record { provider_id = 1; provider_code = codes "BISFIN" } ∷ [];
      feeds =
          record { feed_id = 3; provider_id = 1; feed_code = codes "BISFIN_TRADING_CALENDAR" } ∷ [];
      timeframes = [];
      sessions = ss;
      instruments = [];
      identifiers = [];
      specifications = [];
    };
    batches = record { batches = []; next_id = 1; feeds = 3 ∷ [] };
    raw_events = record { events = []; next_raw_event_id = 1; months = [] };
    bars = record { timeframes = []; series = []; next_series_id = 1; months = []; revisions = [] };
  };
}

import_calendar-IsImported_example :
    IsImported world
      (λ o. refl)
      calendar
      (catalog_sessions [])
      (import_calendar world calendar none (codes "r1") (catalog_sessions []))
import_calendar-IsImported_example =
    import_calendar-IsImported world (λ o. refl) calendar none (codes "r1") (catalog_sessions [])

abbrev outcome : List TradingSession → Option ℕ × Option IngestionBatchStatus
outcome ss =
    let (o, s) = import_calendar world calendar none (codes "r1") (catalog_sessions ss) in
    (inserted_days o, last_status s.store.batches.batches)
  where
    inserted_days : Result CalendarFault CalendarImportResult → Option ℕ
    inserted_days (ok r) = some (r.trading_days_inserted + r.closed_days_inserted)
    inserted_days (err e) = none

    last_status : List IngestionBatch → Option IngestionBatchStatus
    last_status [] = none
    last_status (b ∷ bs) = some b.status

two_days : (outcome []).0 ≡ some 2
unfolding import_calendar same_text check_row ◌+ℤ◌ get_by_request_id has_feed
two_days = refl

two_days_status : (outcome []).1 ≡ some succeeded
unfolding import_calendar same_text check_row ◌+ℤ◌ get_by_request_id has_feed
two_days_status = refl

-- A stored day that was closed conflicts with the open day of the file.

conflicting_status :
    (outcome (expected_session 2 (imported_session 738000 false none none) ∷ [])).1 ≡ some failed
unfolding import_calendar same_text check_row ◌+ℤ◌ get_by_request_id has_feed
conflicting_status = refl

-- A database that fails while the raw events are written leaves the batch running, and the same
-- request is refused from then on.
abbrev failing_world : CalendarWorld
failing_world = record world {
  faults = λ step. elim step [
    | CalendarStep.auditing ↦ true
    | CalendarStep.starting ↦ false
    | CalendarStep.writing ↦ false
    | CalendarStep.failing ↦ false
  ];
}

abbrev left_running : CalendarStore
left_running = (import_calendar failing_world calendar none (codes "r1") (catalog_sessions [])).1

stays_running :
    import_calendar world calendar none (codes "r1") left_running ≡ (err conflict, left_running)
unfolding import_calendar same_text check_row ◌+ℤ◌ get_by_request_id has_feed
stays_running = refl
