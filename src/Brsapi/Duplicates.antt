-- ===== src/Brsapi/Duplicates.antt =====
-- `_apply_duplicate_policy` and `parse_unadjusted_daily_candles` of integrations/brsapi/parser.py.
pub mod Groups
pub mod Marks
pub mod Unique
pub mod Parsed
use bisfin.Base.Result.{Result, ok, ◌>>=◌, ◌>>◌, raise_if}
use bisfin.Brsapi.Rows.{validate_row}
use bisfin.Brsapi.Json.{JsonObject, JsonValue}
use bisfin.Brsapi.Envelope.{parse_candlestick_envelope, Envelope, no_data, candlesticks}
use bisfin.Brsapi.Contracts.{
  RowValidationResult, ParsedDailyBarCandidate, issue, is_nil, accepted, duplicate_conflict,
  ParseError, duplicate_identical, empty_request_symbol,
}
use bisfin.Base.{
  Option, List, Bool, ℕ, false, ◌∷◌, if◌then◌else◌, length, ◌++◌, true, some, none, [], ◌||◌, ◌&&◌,
  ltb, ◌-◌, suc, ◌==◌, zero,
}
use bisfin.Base.Texts.{Text, same_text, codes}
use bisfin.Brsapi.Normalization.{Libraries, normalize_brsapi_symbol}

-- The key of a canonical bar: the normalized symbol and the trading date.
abbrev pub Key : Type 0
Key = Text × ℕ

abbrev pub same_key : Key → Key → Bool
same_key x y = same_text x.0 y.0 && (x.1 == y.1)

abbrev pub key_of : ParsedDailyBarCandidate → Key
key_of c = (c.normalized_symbol, c.trading_date)

-- The key of a result that the grouping does not pass over.
abbrev pub group_key : RowValidationResult → Option Key
group_key r =
    if is_nil r.errors then (elim r.candidate [ none ↦ none | some c ↦ some (key_of c) ]) else none

-- `grouped.setdefault(key, []).append(index)`.
unfoldable pub add_index : Key → ℕ → List (Key × List ℕ) → List (Key × List ℕ)
add_index k i [] = (k, i ∷ []) ∷ []
add_index k i ((j, is) ∷ gs) =
    if same_key j k then (j, is ++ i ∷ []) ∷ gs else (j, is) ∷ add_index k i gs

abbrev group_result : Option Key → ℕ → List (Key × List ℕ) → List (Key × List ℕ)
group_result none i gs = gs
group_result (some k) i gs = add_index k i gs

-- The loop of `enumerate(results)` from an index on.
unfoldable pub group_results :
    ℕ → List RowValidationResult → List (Key × List ℕ) → List (Key × List ℕ)
unfolding add_index
group_results i [] gs = gs
group_results i (r ∷ rs) gs = group_results (suc i) rs (group_result (group_key r) i gs)

abbrev pub result_at : ℕ → List RowValidationResult → Option RowValidationResult
result_at i [] = none
result_at zero (r ∷ rs) = some r
result_at (suc i) (r ∷ rs) = result_at i rs

-- `mutable[index] = f(mutable[index])`.
abbrev pub change_at :
    ℕ
    → (RowValidationResult → RowValidationResult)
    → List RowValidationResult
    → List RowValidationResult
change_at i f [] = []
change_at zero f (r ∷ rs) = f r ∷ rs
change_at (suc i) f (r ∷ rs) = r ∷ change_at i f rs

abbrev contains : Text → List Text → Bool
contains h [] = false
contains h (x ∷ xs) = same_text x h || contains h xs

abbrev add_hash : Option RowValidationResult → List Text → List Text
add_hash none hashes = hashes
add_hash (some r) hashes = elim r.candidate [
  | none ↦ hashes
  | some c ↦ if contains c.row_payload_sha256 hashes then hashes else c.row_payload_sha256 ∷ hashes
]

-- The set of the payload hashes of a group.
unfoldable pub hashes_of : List ℕ → List RowValidationResult → List Text
hashes_of [] rs = []
hashes_of (i ∷ is) rs = add_hash (result_at i rs) (hashes_of is rs)

abbrev pub as_identical : Bool → RowValidationResult → RowValidationResult
as_identical first r = record r {
  warnings = r.warnings ++ issue duplicate_identical (codes "date") ∷ [];
  include_in_canonicalization = first;
}

abbrev pub as_conflict : RowValidationResult → RowValidationResult
as_conflict r = record r {
  errors = r.errors ++ issue duplicate_conflict (codes "date") ∷ [];
  include_in_canonicalization = false;
}

unfoldable pub mark_identical : Bool → List ℕ → List RowValidationResult → List RowValidationResult
mark_identical first [] rs = rs
mark_identical first (i ∷ is) rs = mark_identical false is (change_at i (as_identical first) rs)

unfoldable pub mark_conflict : List ℕ → List RowValidationResult → List RowValidationResult
mark_conflict [] rs = rs
mark_conflict (i ∷ is) rs = mark_conflict is (change_at i as_conflict rs)

-- One group: nothing for a single row.
unfoldable pub settle_group : List ℕ → List RowValidationResult → List RowValidationResult
unfolding hashes_of mark_identical mark_conflict
settle_group is rs =
    let identical = mark_identical true is rs in
    let conflict = mark_conflict is rs in
    if ltb (length is) 2 then rs else if length (hashes_of is rs) == 1 then identical else conflict

unfoldable pub settle_groups :
    List (Key × List ℕ) → List RowValidationResult → List RowValidationResult
unfolding settle_group
settle_groups [] rs = rs
settle_groups ((k, is) ∷ gs) rs = settle_groups gs (settle_group is rs)

unfoldable pub apply_duplicate_policy : List RowValidationResult → List RowValidationResult
unfolding group_results settle_groups
apply_duplicate_policy rs = settle_groups (group_results 0 rs []) rs

-- `DailyBarParseResult`, without the digest of the response.
pub record DailyBarParseResult : Type 0 where
  pub no_data_payload : Option JsonObject
  pub rows : List RowValidationResult

unfoldable pub canonical_candidates : List RowValidationResult → List ParsedDailyBarCandidate
canonical_candidates [] = []
canonical_candidates (r ∷ rs) =
    let rest = canonical_candidates rs in
    if r.include_in_canonicalization
    then (elim r.candidate [ none ↦ rest | some c ↦ c ∷ rest ])
    else rest

unfoldable pub accepted_count : List RowValidationResult → ℕ
accepted_count [] = 0
accepted_count (r ∷ rs) = if accepted r then suc (accepted_count rs) else accepted_count rs

unfoldable pub rejected_count : List RowValidationResult → ℕ
unfolding accepted_count
rejected_count rs = length rs - accepted_count rs

module _ (lib : Libraries) where
  -- `_validate_row` of each row, numbered from one.
  unfoldable pub validate_rows :
      Text → ℕ → ℕ → List JsonObject → Result ParseError (List RowValidationResult)
  unfolding validate_row
  validate_rows requested actual sequence [] = ok []
  validate_rows requested actual sequence (row ∷ rows) = do
    r ← validate_row lib requested actual sequence row
    rs ← validate_rows requested actual (suc sequence) rows
    ok (r ∷ rs)

  abbrev parse_rows : Text → Envelope → Result ParseError DailyBarParseResult
  parse_rows requested (no_data payload) = ok (record { no_data_payload = some payload; rows = [] })
  parse_rows requested (candlesticks rows) = do
    results ← validate_rows requested (length rows) 1 rows
    ok (record { no_data_payload = none; rows = apply_duplicate_policy results })

  abbrev is_empty_text : Text → Bool
  is_empty_text [] = true
  is_empty_text (c ∷ cs) = false

  -- `parse_unadjusted_daily_candles`, from the decoded payload on; `err malformed` if there is none.
  unfoldable pub parse_unadjusted_daily_candles :
      Text → Result ParseError JsonValue → Result ParseError DailyBarParseResult
  unfolding parse_candlestick_envelope
  parse_unadjusted_daily_candles requested payload = do
    let symbol = normalize_brsapi_symbol lib requested
    raise_if (is_empty_text symbol) empty_request_symbol
    decoded ← payload
    envelope ← parse_candlestick_envelope decoded
    parse_rows symbol envelope
