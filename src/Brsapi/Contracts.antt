-- ===== src/Brsapi/Contracts.antt =====
-- integrations/brsapi/contracts.py: issues, candidates and the result of a row. The message of an
-- issue is fixed by its place in the code and left out; `message_error` of a provider error too.
use bisfin.Decimal.{Decimal}
use bisfin.Brsapi.Normalization.{SourceTime}
use bisfin.Base.Int.{ℤ}
use bisfin.Brsapi.Json.{JsonObject}
use bisfin.Base.Texts.{Text}
use bisfin.Base.{Option, Bool, List, ℕ, is_some, true, some, ◌&&◌, ◌∷◌, false, []}

pub data RowValidationCode : Type 0 where
  missing_field invalid_field_type empty_symbol symbol_mismatch : RowValidationCode
  invalid_jalali_date invalid_source_time invalid_numeric_value : RowValidationCode
  negative_volume invalid_ohlc duplicate_conflict duplicate_identical : RowValidationCode
  count_mismatch response_type_ignored : RowValidationCode

pub record RowValidationIssue : Type 0 where
  pub code : RowValidationCode
  pub field : Option Text

abbrev pub issue : RowValidationCode → Text → RowValidationIssue
issue c f = record { code = c; field = some f }

pub record ParsedDailyBarCandidate : Type 0 where
  pub source_sequence : ℕ
  pub original_symbol : Text
  pub normalized_symbol : Text
  pub source_date_text : Text
  pub source_time_text : Option Text
  pub source_time : Option SourceTime
  pub trading_date : ℕ
  pub open_price : Decimal
  pub high : Decimal
  pub low : Decimal
  pub close : Decimal
  pub volume : Decimal
  pub raw_payload : JsonObject
  pub row_payload_sha256 : Text

pub record RowValidationResult : Type 0 where
  pub source_sequence : ℕ
  pub raw_payload : JsonObject
  pub candidate : Option ParsedDailyBarCandidate
  pub errors : List RowValidationIssue
  pub warnings : List RowValidationIssue
  pub include_in_canonicalization : Bool

abbrev pub is_nil : List RowValidationIssue → Bool
is_nil [] = true
is_nil (e ∷ es) = false

-- `RowValidationResult.accepted`.
abbrev pub accepted : RowValidationResult → Bool
accepted r = is_some r.candidate && is_nil r.errors

-- What `parse_unadjusted_daily_candles` raises.
pub data ParseError : Type 0 where
  empty_request_symbol malformed ambiguous_empty_array non_object_row : ParseError
  undocumented_response invalid_no_data_metadata no_data_with_message : ParseError
  provider_error : Option ℤ → Option Text → ParseError
  value_error type_error : ParseError
