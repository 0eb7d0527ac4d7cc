-- ===== src/Repositories/TradingCalendar.antt =====
-- trading_calendar_repository.py. `same_metadata` says whether the dict that the driver reads from a
-- JSONB column equals a dict; the caller has read the venue that a session names.
pub mod Ensured
use bisfin.Base.Texts.{codes, same_text}
use bisfin.Repositories.Catalog.{first, TradingSession, is_regular}
use bisfin.Brsapi.Json.{JsonObject, member, str, empty_object}
use bisfin.Base.{
  List, ℕ, Option, Bool, keep, ◌==◌, leb, ◌&&◌, false, some, if◌then◌else◌, ◌||◌, ltb, not, none,
  true, ◌++◌, ◌∷◌, [],
}
use bisfin.Calendar.Manifest.{ValidatedCalendarSession}
use bisfin.Repositories.Bars.Revisions.{same_option, same_bool}
use bisfin.Ingestion.Transitions.{merge}
use bisfin.Base.Sort.{sorted}
use bisfin.Base.Result.{Result, ok, err, raise_if, ◌>>◌}

-- `CalendarConflictError`, and the CHECK of the table.
pub data SessionError : Type 0 where
  calendar_conflict session_refused : SessionError

pub record CalendarSessionWriteResult : Type 0 where
  pub session : TradingSession
  pub created : Bool
  pub unchanged : Bool

unfoldable pub get_session : ℕ → ℕ → List TradingSession → Option TradingSession
unfolding first
get_session venue date ss = first (is_regular venue date) ss

abbrev is_listed : ℕ → ℕ → ℕ → TradingSession → Bool
is_listed venue from to s =
    (s.venue_id == venue)
    && leb from s.trading_date
    && leb s.trading_date to
    && same_text s.session_code (codes "REGULAR")

abbrev session_le : TradingSession → TradingSession → Bool
session_le a b = leb a.trading_date b.trading_date

unfoldable pub list_sessions : ℕ → ℕ → ℕ → List TradingSession → List TradingSession
list_sessions venue from to ss = sorted session_le (keep (is_listed venue from to) ss)

-- The expected row.
unfoldable pub expected_session : ℕ → ValidatedCalendarSession → TradingSession
unfolding merge
expected_session venue c = record {
  venue_id = venue;
  trading_date = c.trading_date;
  session_code = codes "REGULAR";
  is_trading_day = c.is_trading_day;
  session_open_ts = c.session_open_ts;
  session_close_ts = c.session_close_ts;
  settlement_date = c.settlement_date;
  metadata = merge c.metadata (member (codes "source_status") (str c.source_status) empty_object);
}

abbrev same_number : ℕ → ℕ → Bool
same_number a b = a == b

abbrev opens_and_closes : Option ℕ → Option ℕ → Bool
opens_and_closes none closed = false
opens_and_closes (some a) none = false
opens_and_closes (some a) (some b) = ltb a b

-- The CHECK constraint of `catalog.trading_session`.
abbrev check_session : TradingSession → Bool
check_session s =
    (s.is_trading_day && opens_and_closes s.session_open_ts s.session_close_ts)
    || not s.is_trading_day

abbrev pub Ensured : Type 0
Ensured = CalendarSessionWriteResult × List TradingSession

module _ (same_metadata : JsonObject → JsonObject → Bool) where
  -- No field differs; venue, date and code are those of the search.
  unfoldable pub is_same_session : TradingSession → TradingSession → Bool
  is_same_session x y =
      same_bool x.is_trading_day y.is_trading_day
      && same_option same_number x.session_open_ts y.session_open_ts
      && same_option same_number x.session_close_ts y.session_close_ts
      && same_option same_number x.settlement_date y.settlement_date
      && same_metadata x.metadata y.metadata

  abbrev pub ensured :
      TradingSession → List TradingSession → Option TradingSession → Result SessionError Ensured
  ensured e ss (some s) =
      if is_same_session s e
      then ok (record { session = s; created = false; unchanged = true }, ss)
      else err calendar_conflict
  ensured e ss none = do
    raise_if (not (check_session e)) session_refused
    ok (record { session = e; created = true; unchanged = false }, ss ++ e ∷ [])

  unfoldable pub ensure_session :
      ℕ → ValidatedCalendarSession → List TradingSession → Result SessionError Ensured
  unfolding get_session expected_session is_same_session
  ensure_session venue c ss =
      ensured (expected_session venue c) ss (get_session venue c.trading_date ss)
