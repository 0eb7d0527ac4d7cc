-- ===== src/Calendar/Manifest.antt =====
-- `_to_utc` and `validate_calendar_manifest` of calendar/manifest.py. A date is a number of days, a
-- local time a number of microseconds in its day, and a zone, which `zoneinfo` supplies, converts
-- between naive local time and UTC. The reading of the JSON file is not modelled.
pub mod Dates
pub mod Sessions
pub mod Timed
pub mod Complete
use bisfin.Brsapi.Json.{JsonObject}
use bisfin.Base.Texts.{Text}
use bisfin.Base.Sort.{sorted}
use bisfin.Base.{
  List, Bool, ℕ, Option, if◌then◌else◌, ◌∷◌, ◌+◌, false, ◌*◌, [], true, leb, is_some, none, ◌==◌,
  ltb, ◌&&◌, suc, ◌-◌, some, ◌||◌, zero, not,
}
use bisfin.Base.Result.{Result, ok, err, ◌>>=◌, ◌>>◌, raise_if}

-- `astimezone` both ways; a fold is 0 or 1.
pub record ZoneInfo : Type 0 where
  pub to_utc : ℕ → ℕ → ℕ
  pub to_local : ℕ → ℕ

pub data CalendarManifestError : Type 0 where
  date_range_reversed no_sessions closed_with_times open_without_times : CalendarManifestError
  duplicate_trading_date date_outside_range incomplete_range : CalendarManifestError
  nonexistent_time ambiguous_time invalid_fold close_not_after_open : CalendarManifestError

pub record CalendarSession : Type 0 where
  pub trading_date : ℕ
  pub is_trading_day : Bool
  pub open_local_time : Option ℕ
  pub close_local_time : Option ℕ
  pub source_status : Text
  pub settlement_date : Option ℕ
  pub open_fold : Option ℕ
  pub close_fold : Option ℕ
  pub metadata : JsonObject

pub record CalendarManifest : Type 0 where
  pub calendar_id : Text
  pub venue_code : Text
  pub timezone : Text
  pub date_from : ℕ
  pub date_to : ℕ
  pub sessions : List CalendarSession

pub record ValidatedCalendarSession : Type 0 where
  pub trading_date : ℕ
  pub is_trading_day : Bool
  pub open_local_time : Option ℕ
  pub close_local_time : Option ℕ
  pub session_open_ts : Option ℕ
  pub session_close_ts : Option ℕ
  pub settlement_date : Option ℕ
  pub source_status : Text
  pub metadata : JsonObject

-- `CalendarSession.validate_open_closed_shape`.
unfoldable pub validate_open_closed_shape :
    CalendarSession → Result CalendarManifestError CalendarSession
validate_open_closed_shape s =
    let timed = is_some s.open_local_time in
    let ended = is_some s.close_local_time in
    if s.is_trading_day
    then if timed && ended then ok s else err open_without_times
    else if timed || ended
    then err closed_with_times
    else ok s

abbrev is_empty : List CalendarSession → Bool
is_empty [] = true
is_empty (s ∷ ss) = false

-- `CalendarManifest.validate_shape`, for a zone that exists.
unfoldable pub validate_shape : CalendarManifest → Result CalendarManifestError CalendarManifest
validate_shape m =
    if ltb m.date_to m.date_from
    then err date_range_reversed
    else if is_empty m.sessions
    then err no_sessions
    else ok m

abbrev microseconds_per_day : ℕ
microseconds_per_day = 86400000000

-- `candidates[utc_value] = candidate_fold`, in a dict of insertion order.
abbrev put : ℕ → ℕ → List (ℕ × ℕ) → List (ℕ × ℕ)
put k v [] = (k, v) ∷ []
put k v ((j, w) ∷ cs) = if j == k then (j, v) ∷ cs else (j, w) ∷ put k v cs

-- The candidate of a fold, if it comes back to the local time.
abbrev add_candidate : ZoneInfo → ℕ → ℕ → List (ℕ × ℕ) → List (ℕ × ℕ)
add_candidate zone naive fold cs =
    let utc = zone.to_utc naive fold in if zone.to_local utc == naive then put utc fold cs else cs

abbrev with_fold : ℕ → List (ℕ × ℕ) → Result CalendarManifestError ℕ
with_fold fold [] = err invalid_fold
with_fold fold ((utc, f) ∷ cs) = if f == fold then ok utc else with_fold fold cs

abbrev choose : List (ℕ × ℕ) → Option ℕ → Result CalendarManifestError ℕ
choose [] fold = err nonexistent_time
choose (c ∷ cs) (some fold) = with_fold fold (c ∷ cs)
choose (c ∷ []) none = ok c.0
choose (c ∷ d ∷ cs) none = err ambiguous_time

-- `_to_utc`.
unfoldable pub to_utc : ZoneInfo → ℕ → ℕ → Option ℕ → Result CalendarManifestError ℕ
to_utc zone date time fold =
    let naive = date * microseconds_per_day + time in
    choose (add_candidate zone naive 1 (add_candidate zone naive 0 [])) fold

unfoldable pub mem_date : ℕ → List ℕ → Bool
mem_date d [] = false
mem_date d (e ∷ es) = (e == d) || mem_date d es

-- `expected_dates`: the dates of the range, counted down from its length.
unfoldable pub dates_from : ℕ → ℕ → List ℕ
dates_from d zero = []
dates_from d (suc n) = d ∷ dates_from (d + 1) n

-- The loop over the sessions: the set of their dates.
unfoldable pub collect_dates :
    CalendarManifest → List CalendarSession → List ℕ → Result CalendarManifestError (List ℕ)
unfolding mem_date
collect_dates m [] seen = ok seen
collect_dates m (s ∷ ss) seen =
    let rest = collect_dates m ss (s.trading_date ∷ seen) in
    if mem_date s.trading_date seen
    then err duplicate_trading_date
    else if ltb s.trading_date m.date_from || ltb m.date_to s.trading_date
    then err date_outside_range
    else rest

abbrev all_in : List ℕ → List ℕ → Bool
all_in [] ys = true
all_in (x ∷ xs) ys = mem_date x ys && all_in xs ys

abbrev le_date : CalendarSession → CalendarSession → Bool
le_date x y = leb x.trading_date y.trading_date

abbrev as_validated : CalendarSession → Option ℕ → Option ℕ → ValidatedCalendarSession
as_validated s opened closed = record {
  trading_date = s.trading_date;
  is_trading_day = s.is_trading_day;
  open_local_time = s.open_local_time;
  close_local_time = s.close_local_time;
  session_open_ts = opened;
  session_close_ts = closed;
  settlement_date = s.settlement_date;
  source_status = s.source_status;
  metadata = s.metadata;
}

abbrev timed_session :
    ZoneInfo
    → CalendarSession
    → Option ℕ
    → Option ℕ
    → Result CalendarManifestError ValidatedCalendarSession
timed_session zone s (some opens) (some closes) = do
  open_ts ← to_utc zone s.trading_date opens s.open_fold
  close_ts ← to_utc zone s.trading_date closes s.close_fold
  raise_if (leb close_ts open_ts) close_not_after_open
  ok (as_validated s (some open_ts) (some close_ts))
timed_session zone s none closes = err open_without_times
timed_session zone s (some opens) none = err open_without_times

-- One session; the `assert` of an open day is the error of its shape.
unfoldable pub validate_session :
    ZoneInfo → CalendarSession → Result CalendarManifestError ValidatedCalendarSession
unfolding to_utc
validate_session zone s =
    let timed = timed_session zone s s.open_local_time s.close_local_time in
    if s.is_trading_day then timed else ok (as_validated s none none)

unfoldable pub validate_sessions :
    ZoneInfo → List CalendarSession → Result CalendarManifestError (List ValidatedCalendarSession)
unfolding validate_session
validate_sessions zone [] = ok []
validate_sessions zone (s ∷ ss) = do
  v ← validate_session zone s
  vs ← validate_sessions zone ss
  ok (v ∷ vs)

unfoldable pub validate_calendar_manifest :
    ZoneInfo → CalendarManifest → Result CalendarManifestError (List ValidatedCalendarSession)
unfolding collect_dates dates_from mem_date sorted validate_sessions
validate_calendar_manifest zone m = do
  let expected = dates_from m.date_from (m.date_to + 1 - m.date_from)
  seen ← collect_dates m m.sessions []
  raise_if (not (all_in expected seen && all_in seen expected)) incomplete_range
  validate_sessions zone (sorted le_date m.sessions)
