-- ===== src/Ingestion/DailyBars.antt =====
-- ingestion/daily_bars.py: the diagnostics and keys of a row. A row issue carries no message in the
-- parser's model, and its payload has none either.
use bisfin.Brsapi.Contracts.{
  count_mismatch, RowValidationCode, RowValidationIssue, missing_field, invalid_field_type,
  empty_symbol, symbol_mismatch, invalid_jalali_date, invalid_source_time, invalid_numeric_value,
  negative_volume, invalid_ohlc, duplicate_conflict, duplicate_identical, count_mismatch,
  response_type_ignored,
}
use bisfin.Brsapi.Json.{
  get, JsonValue, JsonObject, null, str, member, empty_object, bool, int, decimal, array, object,
}
use bisfin.Base.{Option, List, some, ◌∷◌, ◌++◌, map, none, []}
use bisfin.Base.Texts.{Text, codes}
use bisfin.Brsapi.Normalization.{strip}

pub data CanonicalizationCode : Type 0 where
  instrument_not_found instrument_venue_missing : CanonicalizationCode
  trading_session_not_found invalid_trading_session : CanonicalizationCode
  response_before_session_close system_availability_before_public : CanonicalizationCode

abbrev unknown_date : Text
unknown_date = codes "unknown-date"

abbrev date_component : Option Text → Text
date_component none = unknown_date
date_component (some []) = unknown_date
date_component (some (c ∷ cs)) = strip (c ∷ cs)

unfoldable pub source_record_key : Text → Option Text → Text
unfolding strip
source_record_key symbol date =
    codes "brsapi|candlestick|type=2|" ++ (symbol ++ (codes "|" ++ date_component date))

abbrev text_of : Option JsonValue → Option Text
text_of none = none
text_of (some (str t)) = some t
text_of (some null) = none
text_of (some (bool b)) = none
text_of (some (int n)) = none
text_of (some (decimal d)) = none
text_of (some (array a)) = none
text_of (some (object o)) = none

unfoldable pub raw_string : JsonObject → Text → Option Text
unfolding get
raw_string payload field = text_of (get field payload)

abbrev row_code : RowValidationCode → Text
row_code missing_field = codes "MISSING_FIELD"
row_code invalid_field_type = codes "INVALID_FIELD_TYPE"
row_code empty_symbol = codes "EMPTY_SYMBOL"
row_code symbol_mismatch = codes "SYMBOL_MISMATCH"
row_code invalid_jalali_date = codes "INVALID_JALALI_DATE"
row_code invalid_source_time = codes "INVALID_SOURCE_TIME"
row_code invalid_numeric_value = codes "INVALID_NUMERIC_VALUE"
row_code negative_volume = codes "NEGATIVE_VOLUME"
row_code invalid_ohlc = codes "INVALID_OHLC"
row_code duplicate_conflict = codes "DUPLICATE_CONFLICT"
row_code duplicate_identical = codes "DUPLICATE_IDENTICAL"
row_code count_mismatch = codes "COUNT_MISMATCH"
row_code response_type_ignored = codes "RESPONSE_TYPE_IGNORED"

abbrev text_or_null : Option Text → JsonValue
text_or_null none = null
text_or_null (some t) = str t

abbrev issue_payload : Text → RowValidationIssue → JsonObject
issue_payload severity i = member (codes "code") (str (row_code i.code)) (
    member (codes "field") (text_or_null i.field)
      (member (codes "severity") (str severity) empty_object))

-- The errors, then the warnings.
unfoldable pub issue_payloads : List RowValidationIssue → List RowValidationIssue → List JsonObject
issue_payloads errors warnings =
    map (issue_payload (codes "ERROR")) errors ++ map (issue_payload (codes "WARNING")) warnings

abbrev canonicalization_code : CanonicalizationCode → Text
canonicalization_code instrument_not_found = codes "INSTRUMENT_NOT_FOUND"
canonicalization_code instrument_venue_missing = codes "INSTRUMENT_VENUE_MISSING"
canonicalization_code trading_session_not_found = codes "TRADING_SESSION_NOT_FOUND"
canonicalization_code invalid_trading_session = codes "INVALID_TRADING_SESSION"
canonicalization_code response_before_session_close = codes "RESPONSE_BEFORE_SESSION_CLOSE"
canonicalization_code system_availability_before_public = codes "SYSTEM_AVAILABILITY_BEFORE_PUBLIC"

unfoldable pub canonicalization_issue : CanonicalizationCode → Text → Text → JsonObject
canonicalization_issue code field message =
    member (codes "code") (str (canonicalization_code code)) (
      member (codes "field") (str field) (
        member (codes "message") (str message)
          (member (codes "severity") (str (codes "ERROR")) empty_object)))
