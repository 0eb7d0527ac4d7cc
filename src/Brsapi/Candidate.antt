-- ===== src/Brsapi/Candidate.antt =====
-- The values that `_validate_row` reads from a row, and the candidate that they make.
use bisfin.Brsapi.Contracts.{ParsedDailyBarCandidate}
use bisfin.Decimal.{Decimal}
use bisfin.Base.Int.{ℤ}
use bisfin.Base.Texts.{Text}
use bisfin.Brsapi.Json.{JsonObject}
use bisfin.Base.{Option, [], ℕ, some, ◌∷◌, none}
use bisfin.Brsapi.Normalization.{
  Libraries, SourceTime, parse_source_time, parse_jalali_date, normalize_brsapi_symbol,
}
use bisfin.Brsapi.Fields.{Reading}
use bisfin.Base.Optional.{◌>>=◌}

-- The local variables of `_validate_row` once every field is read.
pub record RowReadings : Type 0 where
  pub symbol : Reading Text
  pub response_type : Reading ℤ
  pub declared_count : Reading ℤ
  pub date_text : Reading Text
  pub time_text : Reading Text
  pub open_price : Reading Decimal
  pub high : Reading Decimal
  pub low : Reading Decimal
  pub close : Reading Decimal
  pub volume : Reading Decimal

-- `normalize_brsapi_symbol(original_symbol) if original_symbol else ""`.
abbrev pub normalized_of : Libraries → Option Text → Text
normalized_of lib none = []
normalized_of lib (some []) = []
normalized_of lib (some (c ∷ cs)) = normalize_brsapi_symbol lib (c ∷ cs)

abbrev pub date_from : Libraries → Option Text → Option ℕ
date_from lib none = none
date_from lib (some t) = parse_jalali_date lib t

abbrev pub time_from : Libraries → Option Text → Option SourceTime
time_from lib none = none
time_from lib (some t) = parse_source_time lib t

-- The candidate, if each required value was read.
unfoldable pub candidate_of :
    Libraries → JsonObject → ℕ → RowReadings → Option ParsedDailyBarCandidate
candidate_of lib row sequence r = do
  symbol ← r.symbol.value
  response_type ← r.response_type.value
  declared_count ← r.declared_count.value
  date_text ← r.date_text.value
  trading_date ← date_from lib r.date_text.value
  open_price ← r.open_price.value
  high ← r.high.value
  low ← r.low.value
  close ← r.close.value
  volume ← r.volume.value
  some (record {
    source_sequence = sequence;
    original_symbol = symbol;
    normalized_symbol = normalized_of lib r.symbol.value;
    source_date_text = date_text;
    source_time_text = r.time_text.value;
    source_time = time_from lib r.time_text.value;
    trading_date = trading_date;
    open_price = open_price;
    high = high;
    low = low;
    close = close;
    volume = volume;
    raw_payload = row;
    row_payload_sha256 = lib.payload_sha256 row;
  })
