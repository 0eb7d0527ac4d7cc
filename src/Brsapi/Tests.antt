-- ===== src/Brsapi/Tests.antt =====
-- Three rows of one symbol, two of them for one date, and the theorems at their parse.
-- A stand-in for the libraries: ASCII digits, and no calendar but the number YYYYMMDD.
use bisfin.Brsapi.Candidate.{candidate_of}
use bisfin.Brsapi.Duplicates.Parsed.{parse_unadjusted_daily_candles-IsSoundBar}
use bisfin.Decimal.{below_zero, lt}
use bisfin.Base.Int.{pos}
use bisfin.Brsapi.Rows.Complete.{validate_row_complete}
use bisfin.Brsapi.Duplicates.Unique.{apply_duplicate_policy_unique}
use bisfin.Brsapi.Envelope.Shapes.{array_of, IsPayloadOf, parse_candlestick_envelope_iff}
use bisfin.Brsapi.Duplicates.Groups.{key_at}
use bisfin.Brsapi.Duplicates.Marks.{included_at}
use bisfin.Base.Texts.{Text, codes, same_text}
use bisfin.Brsapi.Rows.Sound.{IsSoundBar}
use bisfin.Brsapi.Contracts.{RowValidationResult, ParseError, is_nil}
use bisfin.Base.Result.{Result, ok, err}
use bisfin.Brsapi.Json.{array, empty_object, JsonValue, JsonObject, int, member, str, get}
use bisfin.Brsapi.Envelope.{parse_candlestick_envelope, candlesticks}
use bisfin.Brsapi.Duplicates.{
  apply_duplicate_policy, parse_unadjusted_daily_candles, DailyBarParseResult, canonical_candidates,
  validate_rows,
}
use bisfin.Brsapi.Normalization.{Libraries, normalize_brsapi_symbol, is_space, parse_jalali_date}
use bisfin.Brsapi.Rows.{validate_row, read_row, errors_of}
use bisfin.Base.{
  List, Option, is_some, ℕ, ◌≡◌, some, ◌∷◌, map, if◌then◌else◌, ◌==◌, leb, ◌≢◌, true, [], none,
  refl, All, ◌&&◌, false, ◌-◌, ◌*◌, ◌+◌, ◌↔◌, arith,
}

abbrev ascii_digit : ℕ → Option ℕ
ascii_digit c = if leb 48 c && leb c 57 then some (c - 48) else none

abbrev lib : Libraries
lib = record {
  nfkc = λ t. t;
  decimal_digit = ascii_digit;
  is_other_digit = λ c. c == 178;
  to_gregorian = λ y m d.
      if leb 1 m && leb m 12 && leb 1 d && leb d 31 then some (y * 10000 + m * 100 + d) else none;
  parse_decimal = λ t. none;
  payload_sha256 = λ o. elim (get (codes "close") o) [ some (int (pos n)) ↦ n ∷ [] | _ ↦ [] ];
}

abbrev number : ℕ → JsonValue
number n = int (pos n)

abbrev row : Text → ℕ → JsonObject
row date close = member (codes "l18") (str (codes "abc")) (
    member (codes "type") (number 2) (
      member (codes "count") (number 3) (
        member (codes "date") (str date) (
          member (codes "open") (number 10) (
            member (codes "high") (number 12) (
              member (codes "low") (number 9) (
                member (codes "close") (number close)
                  (member (codes "volume") (number 100) empty_object))))))))

abbrev rows : List JsonObject
rows = row (codes "1403-05-01") 11 ∷ row (codes "1403-05-02") 10 ∷ row (codes "1403/05/01") 12 ∷ []

abbrev no_row : RowValidationResult
no_row = record {
  source_sequence = 0;
  raw_payload = empty_object;
  candidate = none;
  errors = [];
  warnings = [];
  include_in_canonicalization = false;
}

abbrev valid : RowValidationResult
valid = from (validate_row lib (codes "abc") 3 1 (row (codes "1403-05-01") 11))
  where
    from : Result ParseError RowValidationResult → RowValidationResult
    from (ok r) = r
    from (err e) = no_row

validated : validate_row lib (codes "abc") 3 1 (row (codes "1403-05-01") 11) ≡ ok valid
unfolding validate_row read_row same_text
validated = refl

validate_row_complete_example :
    (is_some valid.candidate ≡ is_nil valid.errors)
    × (valid.include_in_canonicalization ≡ is_nil valid.errors)
    × (valid.source_sequence ≡ 1)
    × (valid.raw_payload ≡ row (codes "1403-05-01") 11)
validate_row_complete_example =
    validate_row_complete lib (codes "abc") 3 1 (row (codes "1403-05-01") 11) valid validated

abbrev payload : Result ParseError JsonValue
payload = ok (array (array_of rows))

abbrev parsed : DailyBarParseResult
parsed = from (parse_unadjusted_daily_candles lib (codes " abc") payload)
  where
    from : Result ParseError DailyBarParseResult → DailyBarParseResult
    from (ok r) = r
    from (err e) = record { no_data_payload = none; rows = [] }

parses : parse_unadjusted_daily_candles lib (codes " abc") payload ≡ ok parsed
unfolding parse_unadjusted_daily_candles normalize_brsapi_symbol is_space validate_rows read_row
    same_text
parses = refl

-- The two rows of one date disagree, so that neither is canonical.
canonical_dates : map (λ c. c.trading_date) (canonical_candidates parsed.rows) ≡ 14030502 ∷ []
unfolding parse_unadjusted_daily_candles canonical_candidates normalize_brsapi_symbol is_space
    validate_rows read_row same_text apply_duplicate_policy errors_of parse_jalali_date below_zero
    lt candidate_of
canonical_dates = refl

parse_unadjusted_daily_candles-IsSoundBar_example :
    (normalize_brsapi_symbol lib (codes " abc") ≢ [])
    × All
        (IsSoundBar lib (normalize_brsapi_symbol lib (codes " abc")))
        (canonical_candidates parsed.rows)
parse_unadjusted_daily_candles-IsSoundBar_example =
    parse_unadjusted_daily_candles-IsSoundBar lib (codes " abc") payload parsed parses

-- Equal rows: the first of them is canonical.
abbrev twins : List RowValidationResult
twins = valid ∷ valid ∷ []

first_is_included : included_at 0 (apply_duplicate_policy twins) ≡ true
unfolding apply_duplicate_policy validate_row read_row same_text errors_of normalize_brsapi_symbol
    is_space parse_jalali_date below_zero lt candidate_of
first_is_included = refl

keyed : key_at 0 twins ≡ some (codes "abc", 14030501)
unfolding validate_row read_row same_text errors_of normalize_brsapi_symbol is_space
    parse_jalali_date below_zero lt candidate_of
keyed = refl

apply_duplicate_policy_unique_example : ◌≡◌ {A = ℕ} 0 0
apply_duplicate_policy_unique_example =
    apply_duplicate_policy_unique twins (codes "abc", 14030501) 0 0 keyed keyed first_is_included
      first_is_included

parse_candlestick_envelope_iff_example :
    (parse_candlestick_envelope (array (array_of rows)) ≡ ok (candlesticks rows))
    ↔ IsPayloadOf (candlesticks rows) (array (array_of rows))
parse_candlestick_envelope_iff_example =
    parse_candlestick_envelope_iff (array (array_of rows)) (candlesticks rows)

-- The rows of the payload are read.
rows_are_read : parse_candlestick_envelope (array (array_of rows)) ≡ ok (candlesticks rows)
rows_are_read =
    (parse_candlestick_envelope_iff (array (array_of rows)) (candlesticks rows)).1
      (refl, omega arith)
