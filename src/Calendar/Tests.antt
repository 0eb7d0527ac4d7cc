-- ===== src/Calendar/Tests.antt =====
-- A calendar of two days, given out of order, in a zone that is UTC.
use bisfin.Brsapi.Json.{empty_object}
use bisfin.Calendar.Manifest.Complete.{validate_calendar_manifest_complete}
use bisfin.Base.Texts.{codes}
use bisfin.Base.Result.{err, ok, Result}
use bisfin.Calendar.Manifest.Timed.{validated_date, IsTimed}
use bisfin.Base.{map, List, false, some, ◌∷◌, true, ◌≡◌, none, [], refl, ◌*◌, ◌+◌, ◌-◌, All}
use bisfin.Calendar.Manifest.{
  CalendarSession, CalendarManifest, to_utc, ZoneInfo, validate_calendar_manifest,
  ValidatedCalendarSession, dates_from, invalid_fold, CalendarManifestError,
}

abbrev utc : ZoneInfo
utc = record { to_utc = λ naive fold. naive; to_local = λ t. t }

abbrev open_day : CalendarSession
open_day = record {
  trading_date = 5;
  is_trading_day = true;
  open_local_time = some 100;
  close_local_time = some 200;
  source_status = codes "open";
  settlement_date = none;
  open_fold = none;
  close_fold = none;
  metadata = empty_object;
}

abbrev closed_day : CalendarSession
closed_day = record {
  trading_date = 4;
  is_trading_day = false;
  open_local_time = none;
  close_local_time = none;
  source_status = codes "closed";
  settlement_date = none;
  open_fold = none;
  close_fold = none;
  metadata = empty_object;
}

abbrev manifest : CalendarManifest
manifest = record {
  calendar_id = codes "c";
  venue_code = codes "v";
  timezone = codes "z";
  date_from = 4;
  date_to = 5;
  sessions = open_day ∷ closed_day ∷ [];
}

abbrev sessions : List ValidatedCalendarSession
sessions = from (validate_calendar_manifest utc manifest)
  where
    from :
        Result CalendarManifestError (List ValidatedCalendarSession) → List ValidatedCalendarSession
    from (ok vs) = vs
    from (err e) = []

validates : validate_calendar_manifest utc manifest ≡ ok sessions
unfolding validate_calendar_manifest
validates = refl

validate_calendar_manifest_complete_example :
    (map validated_date sessions ≡ dates_from 4 (5 + 1 - 4)) × All IsTimed sessions
validate_calendar_manifest_complete_example =
    validate_calendar_manifest_complete utc manifest sessions validates

-- A time that both folds give is found with fold 1 and refused with fold 0.
fold_one : to_utc utc 5 100 (some 1) ≡ ok (5 * 86400000000 + 100)
unfolding to_utc
fold_one = refl

fold_zero : to_utc utc 5 100 (some 0) ≡ err invalid_fold
unfolding to_utc
fold_zero = refl
