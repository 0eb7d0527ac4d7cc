-- ===== src/Brsapi/Rows.antt =====
-- `_validate_row` of integrations/brsapi/parser.py: the issues of a row and its result.
pub mod Complete
pub mod Sound
use bisfin.Base.Result.{Result, ◌>>=◌, ok}
use bisfin.Brsapi.Fields.{Reading, absent, string_field, decimal_field, integer_field}
use bisfin.Brsapi.Candidate.{RowReadings, normalized_of, candidate_of}
use bisfin.Base.Int.{ℤ, pos, negsuc}
use bisfin.Decimal.{Decimal, lt, below_zero}
use bisfin.Brsapi.Contracts.{
  RowValidationCode, RowValidationIssue, issue, empty_symbol, invalid_numeric_value, invalid_ohlc,
  negative_volume, missing_field, symbol_mismatch, invalid_jalali_date, invalid_source_time,
  ParsedDailyBarCandidate, count_mismatch, response_type_ignored, RowValidationResult, ParseError,
}
use bisfin.Brsapi.Json.{JsonObject, JsonValue, get, null}
use bisfin.Base.Texts.{Text, codes, same_text}
use bisfin.Brsapi.Normalization.{Libraries, parse_jalali_date, parse_source_time}
use bisfin.Base.{
  Option, List, Bool, true, ◌∷◌, [], ◌++◌, false, if◌then◌else◌, some, not, is_some, ◌&&◌, none,
  ◌==◌, ℕ, concat,
}

abbrev required_fields : List Text
required_fields =
    codes "l18"
    ∷ codes "type"
    ∷ codes "count"
    ∷ codes "date"
    ∷ codes "open"
    ∷ codes "high"
    ∷ codes "low"
    ∷ codes "close"
    ∷ codes "volume"
    ∷ []

missing_fields : JsonObject → List Text → List RowValidationIssue
missing_fields row [] = []
missing_fields row (f ∷ fs) =
    let rest = missing_fields row fs in
    if is_some (get f row) then rest else issue missing_field f ∷ rest

abbrev is_blank : Text → Bool
is_blank [] = true
is_blank (c ∷ cs) = false

abbrev symbol_issues : Text → Text → Option Text → List RowValidationIssue
symbol_issues requested normalized none = []
symbol_issues requested normalized (some original) =
    if is_blank normalized
    then issue empty_symbol (codes "l18") ∷ []
    else if same_text normalized requested
    then []
    else issue symbol_mismatch (codes "l18") ∷ []

abbrev negative_count : Option ℤ → List RowValidationIssue
negative_count none = []
negative_count (some (pos n)) = []
negative_count (some (negsuc n)) = issue invalid_numeric_value (codes "count") ∷ []

abbrev invalid_unless : Bool → RowValidationCode → Text → List RowValidationIssue
invalid_unless true c f = []
invalid_unless false c f = issue c f ∷ []

abbrev date_issues : Libraries → Option Text → List RowValidationIssue
date_issues lib none = []
date_issues lib (some t) =
    invalid_unless (is_some (parse_jalali_date lib t)) invalid_jalali_date (codes "date")

-- A missing or null time is not read.
abbrev time_of_row : JsonObject → Option JsonValue → Reading Text
time_of_row row none = absent
time_of_row row (some null) = absent
time_of_row row (some v) = string_field row (codes "time")

abbrev time_issues : Libraries → Option Text → List RowValidationIssue
time_issues lib none = []
time_issues lib (some t) =
    invalid_unless (is_some (parse_source_time lib t)) invalid_source_time (codes "time")

abbrev negative_issues : RowValidationCode → Text → Option Decimal → List RowValidationIssue
negative_issues c f none = []
negative_issues c f (some d) = invalid_unless (not (below_zero d)) c f

abbrev range_issues : Option Decimal → Option Decimal → List RowValidationIssue
range_issues none low = []
range_issues (some high) none = []
range_issues (some high) (some low) =
    if lt high low then record { code = invalid_ohlc; field = none } ∷ [] else []

-- `not low_price <= price <= high_price`.
abbrev inside_issues :
    Text → Option Decimal → Option Decimal → Option Decimal → List RowValidationIssue
inside_issues f none high low = []
inside_issues f (some x) none low = []
inside_issues f (some x) (some high) none = []
inside_issues f (some x) (some high) (some low) =
    invalid_unless (not (lt x low) && not (lt high x)) invalid_ohlc f

-- What each step appends to `errors`, in the order of the code.
abbrev issue_lists : Libraries → Text → JsonObject → RowReadings → List (List RowValidationIssue)
issue_lists lib requested row r =
    missing_fields row required_fields
    ∷ r.symbol.issues
    ∷ symbol_issues requested (normalized_of lib r.symbol.value) r.symbol.value
    ∷ r.response_type.issues
    ∷ r.declared_count.issues
    ∷ negative_count r.declared_count.value
    ∷ r.date_text.issues
    ∷ date_issues lib r.date_text.value
    ∷ r.time_text.issues
    ∷ time_issues lib r.time_text.value
    ∷ r.open_price.issues
    ∷ r.high.issues
    ∷ r.low.issues
    ∷ r.close.issues
    ∷ r.volume.issues
    ∷ negative_issues invalid_numeric_value (codes "open") r.open_price.value
    ∷ negative_issues invalid_numeric_value (codes "high") r.high.value
    ∷ negative_issues invalid_numeric_value (codes "low") r.low.value
    ∷ negative_issues invalid_numeric_value (codes "close") r.close.value
    ∷ negative_issues negative_volume (codes "volume") r.volume.value
    ∷ range_issues r.high.value r.low.value
    ∷ inside_issues (codes "open") r.open_price.value r.high.value r.low.value
    ∷ inside_issues (codes "close") r.close.value r.high.value r.low.value
    ∷ []

unfoldable pub errors_of : Libraries → Text → JsonObject → RowReadings → List RowValidationIssue
unfolding missing_fields
errors_of lib requested row r = concat (issue_lists lib requested row r)

abbrev type_warnings : Option ℤ → List RowValidationIssue
type_warnings none = []
type_warnings (some (pos n)) =
    if n == 2 then [] else issue response_type_ignored (codes "type") ∷ []
type_warnings (some (negsuc n)) = issue response_type_ignored (codes "type") ∷ []

abbrev count_warnings : ℕ → Option ℤ → List RowValidationIssue
count_warnings actual none = []
count_warnings actual (some (negsuc n)) = []
count_warnings actual (some (pos n)) =
    if n == actual then [] else issue count_mismatch (codes "count") ∷ []

abbrev readings_of : Libraries → JsonObject → Reading ℤ → Reading ℤ → RowReadings
readings_of lib row response_type declared_count = record {
  symbol = string_field row (codes "l18");
  response_type = response_type;
  declared_count = declared_count;
  date_text = string_field row (codes "date");
  time_text = time_of_row row (get (codes "time") row);
  open_price = decimal_field lib row (codes "open");
  high = decimal_field lib row (codes "high");
  low = decimal_field lib row (codes "low");
  close = decimal_field lib row (codes "close");
  volume = decimal_field lib row (codes "volume");
}

-- The readers; those of integers may raise.
unfoldable pub read_row : Libraries → JsonObject → Result ParseError RowReadings
unfolding string_field decimal_field integer_field get
read_row lib row = do
  response_type ← integer_field lib row (codes "type")
  declared_count ← integer_field lib row (codes "count")
  ok (readings_of lib row response_type declared_count)

abbrev candidate_unless :
    List RowValidationIssue → Option ParsedDailyBarCandidate → Option ParsedDailyBarCandidate
candidate_unless [] candidate = candidate
candidate_unless (e ∷ es) candidate = none

abbrev result_from : Libraries → Text → ℕ → ℕ → JsonObject → RowReadings → RowValidationResult
result_from lib requested actual sequence row r =
    let errors = errors_of lib requested row r in
    let candidate = candidate_unless errors (candidate_of lib row sequence r) in
    record {
      source_sequence = sequence;
      raw_payload = row;
      candidate = candidate;
      errors = errors;
      warnings =
          type_warnings r.response_type.value ++ count_warnings actual r.declared_count.value;
      include_in_canonicalization = is_some candidate;
    }

-- `_validate_row` for the requested symbol, the number of rows and the row's own number.
unfoldable pub validate_row :
    Libraries → Text → ℕ → ℕ → JsonObject → Result ParseError RowValidationResult
validate_row lib requested actual sequence row = do
  r ← read_row lib row
  ok (result_from lib requested actual sequence row r)
