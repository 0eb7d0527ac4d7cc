-- ===== src/Ingestion/Watermark.antt =====
-- `_source_watermark` of ingestion/service.py: the latest date of the parsed rows as a text.
use bisfin.Brsapi.Contracts.{ParsedDailyBarCandidate, RowValidationResult}
use bisfin.Base.Texts.{Text}
use bisfin.Base.{List, Option, ℕ, some, ◌+◌, if◌then◌else◌, ◌/◌, ◌%◌, none, ltb, ◌∷◌, ◌-◌, ◌*◌, []}

abbrev Civil : Type 0
Civil = ℕ × ℕ × ℕ

-- The year, month and day of a day of the proleptic Gregorian calendar, of which day 1 is
-- 0001-01-01. The year is taken from March on.
unfoldable civil : ℕ → Civil
civil date =
    let z = date + 305 in
    let doe = z % 146097 in
    let yoe = (doe + doe / 36524 - doe / 1460 - doe / 146096) / 365 in
    let doy = doe + yoe / 100 - 365 * yoe - yoe / 4 in
    let mp = (5 * doy + 2) / 153 in
    let month = if ltb mp 10 then mp + 3 else mp - 9 in
    let year = z / 146097 * 400 + yoe in
    (if ltb 2 month then year else year + 1, month, doy - (153 * mp + 2) / 5 + 1)

abbrev digit : ℕ → ℕ
digit n = b'0' + n % 10

-- `date.isoformat()`: YYYY-MM-DD.
unfoldable pub isoformat : ℕ → Text
unfolding civil
isoformat date =
    let (y, m, d) = civil date in
    digit (y / 1000)
    ∷ digit (y / 100)
    ∷ digit (y / 10)
    ∷ digit y
    ∷ b'-'
    ∷ digit (m / 10)
    ∷ digit m
    ∷ b'-'
    ∷ digit (d / 10)
    ∷ digit d
    ∷ []

abbrev later_date : ℕ → Option ℕ → ℕ
later_date d none = d
later_date d (some e) = if ltb d e then e else d

abbrev with_candidate : Option ParsedDailyBarCandidate → Option ℕ → Option ℕ
with_candidate none latest = latest
with_candidate (some c) latest = some (later_date c.trading_date latest)

-- `max(dates)`, none without a date.
unfoldable max_date : List RowValidationResult → Option ℕ
max_date [] = none
max_date (r ∷ rs) = with_candidate r.candidate (max_date rs)

abbrev iso_option : Option ℕ → Option Text
iso_option none = none
iso_option (some d) = some (isoformat d)

unfoldable pub source_watermark : List RowValidationResult → Option Text
unfolding max_date isoformat
source_watermark rows = iso_option (max_date rows)
