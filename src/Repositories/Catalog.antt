-- ===== src/Repositories/Catalog.antt =====
-- repositories/data_feed_repository.py and instrument_repository.py over the catalog tables, with the
-- records of domain/catalog.py less the names and attributes that no query reads. An identifier with
-- no start is valid from minus infinity on.
pub mod Joins
pub mod Unique
use bisfin.Brsapi.Json.{JsonObject}
use bisfin.Repositories.{RepositoryError, entity_not_found, integrity_violation}
use bisfin.Repositories.Bars.{Timeframe}
use bisfin.Decimal.{Decimal}
use bisfin.Base.Result.{Result, err, ok}
use bisfin.Base.Texts.{Text, same_text, codes}
use bisfin.Base.{
  Option, List, keep, Bool, ℕ, ◌&&◌, none, false, ◌==◌, true, is_some, ◌∷◌, [], ◌++◌, some,
  if◌then◌else◌, leb, ltb,
}

pub record Provider : Type 0 where
  pub provider_id : ℕ
  pub provider_code : Text

pub record DataFeed : Type 0 where
  pub feed_id : ℕ
  pub provider_id : ℕ
  pub feed_code : Text

pub record TradingSession : Type 0 where
  pub venue_id : ℕ
  pub trading_date : ℕ
  pub session_code : Text
  pub is_trading_day : Bool
  pub session_open_ts : Option ℕ
  pub session_close_ts : Option ℕ
  pub settlement_date : Option ℕ
  pub metadata : JsonObject

pub record Instrument : Type 0 where
  pub instrument_id : ℕ
  pub asset_type_code : Text
  pub venue_id : Option ℕ
  pub quote_currency_code : Text
  pub canonical_symbol : Text
  pub status : Text

pub record InstrumentIdentifier : Type 0 where
  pub provider_id : ℕ
  pub identifier_type : Text
  pub identifier_value : Text
  pub valid_from : Option ℕ
  pub valid_to : Option ℕ
  pub instrument_id : ℕ
  pub is_primary : Bool

pub record InstrumentSpecification : Type 0 where
  pub instrument_id : ℕ
  pub effective_from : ℕ
  pub effective_to : Option ℕ
  pub contract_multiplier : Decimal

pub record ResolvedInstrument : Type 0 where
  pub instrument : Instrument
  pub identifier : InstrumentIdentifier

pub record SessionResolvedInstrument : Type 0 where
  pub instrument : Instrument
  pub identifier : InstrumentIdentifier
  pub trading_session : TradingSession

pub record CatalogTables : Type 0 where
  pub providers : List Provider
  pub feeds : List DataFeed
  pub timeframes : List Timeframe
  pub sessions : List TradingSession
  pub instruments : List Instrument
  pub identifiers : List InstrumentIdentifier
  pub specifications : List InstrumentSpecification

-- The first row that a WHERE clause keeps.
unfoldable pub first : {A : Type 0} → (A → Bool) → List A → Option A
first p [] = none
first p (a ∷ rest_of) = let rest = first p rest_of in if p a then some a else rest

-- `_required_row`.
abbrev required_row : {A : Type 0} → Option A → Result RepositoryError A
required_row none = err entity_not_found
required_row (some a) = ok a

unfoldable pub get_provider_by_code : Text → CatalogTables → Result RepositoryError Provider
unfolding first
get_provider_by_code code t =
    required_row (first (λ (p : Provider). same_text p.provider_code code) t.providers)

unfoldable pub get_feed_by_code : ℕ → Text → CatalogTables → Result RepositoryError DataFeed
unfolding first
get_feed_by_code provider code t =
    required_row
      (first (λ (f : DataFeed). (f.provider_id == provider) && same_text f.feed_code code) t.feeds)

unfoldable pub get_timeframe_by_code : Text → CatalogTables → Result RepositoryError Timeframe
unfolding first
get_timeframe_by_code code t =
    required_row (first (λ (f : Timeframe). same_text f.timeframe_code code) t.timeframes)

abbrev pub is_regular : ℕ → ℕ → TradingSession → Bool
is_regular venue date s =
    (s.venue_id == venue) && (s.trading_date == date) && same_text s.session_code (codes "REGULAR")

unfoldable get_regular_trading_session :
    ℕ → ℕ → CatalogTables → Result RepositoryError TradingSession
unfolding first
get_regular_trading_session venue date t = required_row (first (is_regular venue date) t.sessions)

unfoldable pub instrument_by_id : ℕ → CatalogTables → Option Instrument
unfolding first
instrument_by_id i t = first (λ (x : Instrument). x.instrument_id == i) t.instruments

abbrev pub is_identifier : ℕ → Text → Text → InstrumentIdentifier → Bool
is_identifier provider kind value i =
    (i.provider_id == provider)
    && same_text i.identifier_type kind
    && same_text i.identifier_value value

unfoldable pub identifier_exists : ℕ → Text → Text → CatalogTables → Bool
unfolding first
identifier_exists provider kind value t =
    is_some (first (is_identifier provider kind value) t.identifiers)

abbrev from_ok : Option ℕ → ℕ → Bool
from_ok none ts = true
from_ok (some a) ts = leb a ts

abbrev to_ok : Option ℕ → ℕ → Bool
to_ok none ts = true
to_ok (some b) ts = ltb ts b

-- The half-open interval `[from, to)`.
abbrev is_valid_at : Option ℕ → Option ℕ → ℕ → Bool
is_valid_at from to ts = from_ok from ts && to_ok to ts

-- A query with LIMIT 2: no row, the only row, or the error of a second one.
abbrev pub unique_row : {A : Type 0} → List A → Result RepositoryError (Option A)
unique_row [] = ok none
unique_row (a ∷ []) = ok (some a)
unique_row (a ∷ b ∷ rest) = err integrity_violation

abbrev resolved_with : InstrumentIdentifier → List Instrument → List ResolvedInstrument
resolved_with i [] = []
resolved_with i (x ∷ xs) =
    if x.instrument_id == i.instrument_id
    then record { instrument = x; identifier = i } ∷ resolved_with i xs
    else resolved_with i xs

-- The join of the kept identifiers with their instruments.
unfoldable pub resolve : List Instrument → List InstrumentIdentifier → List ResolvedInstrument
resolve xs [] = []
resolve xs (i ∷ is) = resolved_with i xs ++ resolve xs is

unfoldable find_by_identifier :
    ℕ → Text → Text → ℕ → CatalogTables → Result RepositoryError (Option ResolvedInstrument)
unfolding resolve keep
find_by_identifier provider kind value ts t = unique_row (
    resolve t.instruments (
      keep
        (λ (i : InstrumentIdentifier).
          is_identifier provider kind value i && is_valid_at i.valid_from i.valid_to ts)
        t.identifiers))

abbrev same_venue : Option ℕ → TradingSession → Bool
same_venue none s = false
same_venue (some v) s = s.venue_id == v

abbrev opens_within : InstrumentIdentifier → Option ℕ → Bool
opens_within i none = false
opens_within i (some opened) = is_valid_at i.valid_from i.valid_to opened

abbrev pub is_session_of : ℕ → ResolvedInstrument → TradingSession → Bool
is_session_of date r s =
    same_venue r.instrument.venue_id s
    && (s.trading_date == date)
    && same_text s.session_code (codes "REGULAR")
    && opens_within r.identifier s.session_open_ts

unfoldable pub in_session :
    ResolvedInstrument → List TradingSession → List SessionResolvedInstrument
in_session r [] = []
in_session r (s ∷ ss) =
    record { instrument = r.instrument; identifier = r.identifier; trading_session = s }
    ∷ in_session r ss

-- The join of the pairs with the sessions that the condition keeps.
unfoldable pub resolve_sessions :
    ℕ → List TradingSession → List ResolvedInstrument → List SessionResolvedInstrument
unfolding in_session keep
resolve_sessions date ss [] = []
resolve_sessions date ss (r ∷ rs) =
    in_session r (keep (is_session_of date r) ss) ++ resolve_sessions date ss rs

unfoldable pub find_by_identifier_for_regular_session :
    ℕ → Text → Text → ℕ → CatalogTables → Result RepositoryError (Option SessionResolvedInstrument)
unfolding resolve resolve_sessions keep
find_by_identifier_for_regular_session provider kind value date t = unique_row (
    resolve_sessions date t.sessions
      (resolve t.instruments (keep (is_identifier provider kind value) t.identifiers)))

unfoldable get_active_spec :
    ℕ → ℕ → CatalogTables → Result RepositoryError (Option InstrumentSpecification)
unfolding keep
get_active_spec i ts t = unique_row (
    keep
      (λ (s : InstrumentSpecification).
        (s.instrument_id == i) && is_valid_at (some s.effective_from) s.effective_to ts)
      t.specifications)
