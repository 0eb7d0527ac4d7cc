-- ===== src/Ingestion/Service/Screening.antt =====
-- The first loop of `_canonicalize` of ingestion/service.py: which rows become bars.
use bisfin.Base.Result.{Result, ok, ◌>>=◌, err, map_err}
use bisfin.Base.Texts.{codes}
use bisfin.Repositories.Catalog.{
  SessionResolvedInstrument, CatalogTables, TradingSession, find_by_identifier_for_regular_session,
  identifier_exists,
}
use bisfin.Repositories.RawEvents.{
  RawEventTable, RawEvent, update_validation_result, rejected, RawEventValidationStatus,
}
use bisfin.Brsapi.Json.{JsonObject}
use bisfin.Ingestion.DailyBars.{
  canonicalization_issue, issue_payloads, trading_session_not_found, response_before_session_close,
  instrument_not_found, instrument_venue_missing, invalid_trading_session,
}
use bisfin.Ingestion.Service.{World, Tally, Fault, assertion_error, repository}
use bisfin.Brsapi.Contracts.{RowValidationResult, ParsedDailyBarCandidate}
use bisfin.Base.{
  Option, List, Bool, ℕ, if◌then◌else◌, false, some, not, ◌==◌, true, ltb, none, ◌||◌, ◌++◌, ◌∷◌,
  [], ◌+◌,
}

abbrev venue_matches : Option ℕ → TradingSession → Bool
venue_matches none s = false
venue_matches (some v) s = v == s.venue_id

abbrev closes_after_open : Option ℕ → Option ℕ → Bool
closes_after_open none c = false
closes_after_open (some o) none = false
closes_after_open (some o) (some c) = ltb o c

-- `_validate_resolution`.
unfoldable validate_resolution : SessionResolvedInstrument → Option JsonObject
unfolding canonicalization_issue
validate_resolution q =
    if not (venue_matches q.instrument.venue_id q.trading_session)
    then some (
        canonicalization_issue instrument_venue_missing (codes "venue_id")
          (codes "The resolved instrument has no matching canonical venue."))
    else if not q.trading_session.is_trading_day
        || not
            (closes_after_open q.trading_session.session_open_ts q.trading_session.session_close_ts)
    then some (
        canonicalization_issue invalid_trading_session (codes "date")
          (codes "The REGULAR trading session is absent or structurally invalid."))
    else none

-- A row with its event, its candidate and the session that it belongs to.
pub record ResolvedRow : Type 0 where
  pub row : RowValidationResult
  pub raw_event : RawEvent
  pub candidate : ParsedDailyBarCandidate
  pub resolution : SessionResolvedInstrument

-- What the loop does with a row: an outcome with its diagnostics, or the row for the second loop.
pub data Screened : Type 0 where
  reject accept : List JsonObject → Screened
  resolve_to : ParsedDailyBarCandidate → SessionResolvedInstrument → Screened

unfoldable pub diagnostics_of : RowValidationResult → List JsonObject
unfolding issue_payloads
diagnostics_of row = issue_payloads row.errors row.warnings

abbrev not_found : Bool → JsonObject
not_found true =
    canonicalization_issue trading_session_not_found (codes "date")
      (codes "No exact identifier and REGULAR-session pairing exists.")
not_found false =
    canonicalization_issue instrument_not_found (codes "l18")
      (codes "No pre-provisioned instrument identifier exists.")

abbrev before_close : JsonObject
before_close =
    canonicalization_issue response_before_session_close (codes "available_at")
      (codes "A final daily bar cannot be available before session close.")

-- The events, the counters and the rows for the second loop, in their order.
pub record Screening : Type 0 where
  pub events : RawEventTable
  pub tally : Tally
  pub resolved : List ResolvedRow

module _ (w : World) (provider : ℕ) (received : ℕ) (catalog : CatalogTables) where
  abbrev after_close :
      List JsonObject
      → ParsedDailyBarCandidate
      → SessionResolvedInstrument
      → Option ℕ
      → Result Fault Screened
  after_close issues c q none = err assertion_error
  after_close issues c q (some closed) =
      ok (if ltb received closed then reject (issues ++ before_close ∷ []) else resolve_to c q)

  abbrev validated_resolution :
      List JsonObject
      → ParsedDailyBarCandidate
      → SessionResolvedInstrument
      → Option JsonObject
      → Result Fault Screened
  validated_resolution issues c q (some i) = ok (reject (issues ++ i ∷ []))
  validated_resolution issues c q none = after_close issues c q q.trading_session.session_close_ts

  abbrev screen_resolution :
      List JsonObject
      → ParsedDailyBarCandidate
      → Option SessionResolvedInstrument
      → Result Fault Screened
  screen_resolution issues c none = ok (
      reject (
        issues
        ++ not_found (
            identifier_exists provider w.settings.brsapi_identifier_type c.normalized_symbol
              catalog)
          ∷ []))
  screen_resolution issues c (some q) = validated_resolution issues c q (validate_resolution q)

  abbrev screen_candidate :
      RowValidationResult → Option ParsedDailyBarCandidate → Result Fault Screened
  screen_candidate row none = ok (reject (diagnostics_of row))
  screen_candidate row (some c) =
      if not (bisfin.Brsapi.Contracts.accepted row)
      then ok (reject (diagnostics_of row))
      else if not row.include_in_canonicalization
      then ok (accept (diagnostics_of row))
      else (map_err repository (
            find_by_identifier_for_regular_session provider w.settings.brsapi_identifier_type
              c.normalized_symbol c.trading_date catalog)
          >>= λ found. screen_resolution (diagnostics_of row) c found)

  unfoldable pub screen_row : RowValidationResult → Result Fault Screened
  unfolding validate_resolution diagnostics_of canonicalization_issue
      find_by_identifier_for_regular_session identifier_exists
  screen_row row = screen_candidate row row.candidate

  abbrev rejected_as : List JsonObject → RawEvent → Screening → Result Fault Screening
  rejected_as issues e s = do
    updated ← map_err repository (update_validation_result e.identity rejected issues s.events)
    ok (record s { events = updated.1; tally = record s.tally { rejected = s.tally.rejected + 1 } })

  abbrev pub record_screened :
      RowValidationResult → RawEvent → Screened → Screening → Result Fault Screening
  record_screened row e (reject issues) s = rejected_as issues e s
  record_screened row e (accept issues) s = do
    updated ←
        map_err repository
          (update_validation_result e.identity RawEventValidationStatus.accepted issues s.events)
    ok (record s { events = updated.1; tally = record s.tally { accepted = s.tally.accepted + 1 } })
  record_screened row e (resolve_to c q) s = ok (record s {
    resolved =
        s.resolved ++ record { row = row; raw_event = e; candidate = c; resolution = q } ∷ [];
  })

  -- The loop over the rows, each with its event.
  unfoldable pub screen_rows :
      List (RowValidationResult × RawEvent) → Screening → Result Fault Screening
  unfolding screen_row update_validation_result
  screen_rows [] s = ok s
  screen_rows ((row, e) ∷ rows) s = do
    screened ← screen_row row
    s' ← record_screened row e screened s
    screen_rows rows s'
