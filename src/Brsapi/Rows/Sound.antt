-- ===== src/Brsapi/Rows/Sound.antt =====
-- The values of a candidate of `_validate_row` in integrations/brsapi/parser.py.
use bisfin.Brsapi.Rows.Complete.{concat-IsNil}
use bisfin.Base.Result.{ok, >>=-inv, ok_injective}
use bisfin.Brsapi.Rows.{
  inside_issues, negative_issues, symbol_issues, issue_lists, range_issues, validate_row, errors_of,
  candidate_unless, read_row,
}
use bisfin.Brsapi.Fields.Given.{IsNil}
use bisfin.Base.{
  Option, ◌≡◌, ℕ, some, All, false, subst, arith, some_injective, true, ◌∷◌, [], none, refl, drop,
  All-drop, sym, ◌∙◌, List, ap,
}
use bisfin.Decimal.{Decimal, lt, below_zero}
use bisfin.Brsapi.Json.{JsonObject}
use bisfin.Brsapi.Normalization.{Libraries, parse_jalali_date}
use bisfin.Base.Texts.{Text, same_text, same_text_sound, codes}
use bisfin.Brsapi.Candidate.{candidate_of, RowReadings, date_from, normalized_of}
use bisfin.Brsapi.Contracts.{
  RowValidationCode, ParsedDailyBarCandidate, RowValidationResult, RowValidationIssue,
  invalid_numeric_value, negative_volume,
}
use bisfin.Base.Optional.{>>=-some-inv}

-- The readings from which the candidate was made.
record IsRead (lib : Libraries) (r : RowReadings) (c : ParsedDailyBarCandidate) : Type 0 where
  symbol : r.symbol.value ≡ some c.original_symbol
  normalized : normalized_of lib r.symbol.value ≡ c.normalized_symbol
  date_text : r.date_text.value ≡ some c.source_date_text
  trading_date : date_from lib r.date_text.value ≡ some c.trading_date
  open_price : r.open_price.value ≡ some c.open_price
  high : r.high.value ≡ some c.high
  low : r.low.value ≡ some c.low
  close : r.close.value ≡ some c.close
  volume : r.volume.value ≡ some c.volume

candidate_of-IsRead :
    (lib : Libraries) (row : JsonObject) (sequence : ℕ) (r : RowReadings)
    (c : ParsedDailyBarCandidate)
    → candidate_of lib row sequence r ≡ some c
    → IsRead lib r c
unfolding candidate_of
candidate_of-IsRead lib row sequence r c h0 =
    let (symbol, e1, h1) = >>=-some-inv r.symbol.value _ h0 in
    let (response_type, e2, h2) = >>=-some-inv r.response_type.value _ h1 in
    let (declared_count, e3, h3) = >>=-some-inv r.declared_count.value _ h2 in
    let (date_text, e4, h4) = >>=-some-inv r.date_text.value _ h3 in
    let (trading_date, e5, h5) = >>=-some-inv (date_from lib r.date_text.value) _ h4 in
    let (open_price, e6, h6) = >>=-some-inv r.open_price.value _ h5 in
    let (high, e7, h7) = >>=-some-inv r.high.value _ h6 in
    let (low, e8, h8) = >>=-some-inv r.low.value _ h7 in
    let (close, e9, h9) = >>=-some-inv r.close.value _ h8 in
    let (volume, e10, h10) = >>=-some-inv r.volume.value _ h9 in
    subst (IsRead lib r) (some_injective h10) (record {
      symbol = e1;
      normalized = refl;
      date_text = e4;
      trading_date = e5;
      open_price = e6;
      high = e7;
      low = e8;
      close = e9;
      volume = e10;
    })

symbol_issues-IsNil :
    (requested normalized : Text) (o : Option Text) (original : Text)
    → o ≡ some original
    → IsNil (symbol_issues requested normalized o)
    → normalized ≡ requested
symbol_issues-IsNil requested normalized o original e h =
    same_text_sound normalized requested
      (matched (subst (λ (x : Option Text). IsNil (symbol_issues requested normalized x)) e h))
  where
    matched :
        IsNil (symbol_issues requested normalized (some original))
        → same_text normalized requested ≡ true
    matched k = ground arith

negative_issues-IsNil :
    (code : RowValidationCode) (f : Text) (o : Option Decimal) (d : Decimal)
    → o ≡ some d
    → IsNil (negative_issues code f o)
    → below_zero d ≡ false
negative_issues-IsNil code f none d e h = absurd (ground arith)
negative_issues-IsNil code f (some x) d e h = ground arith

range_issues-IsNil :
    (h l : Option Decimal) (high low : Decimal)
    → h ≡ some high
    → l ≡ some low
    → IsNil (range_issues h l)
    → lt high low ≡ false
range_issues-IsNil none l high low eh el n = absurd (ground arith)
range_issues-IsNil (some x) none high low eh el n = absurd (ground arith)
range_issues-IsNil (some x) (some y) high low eh el n = ground arith

inside_issues-IsNil :
    (f : Text) (o h l : Option Decimal) (x high low : Decimal)
    → o ≡ some x
    → h ≡ some high
    → l ≡ some low
    → IsNil (inside_issues f o h l)
    → (lt x low ≡ false) × (lt high x ≡ false)
inside_issues-IsNil f none h l x high low e eh el n = absurd (ground arith)
inside_issues-IsNil f (some a) none l x high low e eh el n = absurd (ground arith)
inside_issues-IsNil f (some a) (some b) none x high low e eh el n = absurd (ground arith)
inside_issues-IsNil f (some a) (some b) (some c) x high low e eh el n = ground arith

-- A bar of the requested symbol at the date of its text, with no negative amount, whose opening and
-- closing prices are between its low and its high.
pub record IsSoundBar (lib : Libraries) (requested : Text) (c : ParsedDailyBarCandidate)
    : Type 0 where
  pub symbol : c.normalized_symbol ≡ requested
  pub date : parse_jalali_date lib c.source_date_text ≡ some c.trading_date
  pub prices :
      (below_zero c.open_price ≡ false)
      × (below_zero c.high ≡ false)
      × (below_zero c.low ≡ false)
      × (below_zero c.close ≡ false)
  pub traded : below_zero c.volume ≡ false
  pub range : lt c.high c.low ≡ false
  pub opening : (lt c.open_price c.low ≡ false) × (lt c.high c.open_price ≡ false)
  pub closing : (lt c.close c.low ≡ false) × (lt c.high c.close ≡ false)

readings-IsSoundBar :
    (lib : Libraries) (requested : Text) (row : JsonObject) (r : RowReadings)
    (c : ParsedDailyBarCandidate)
    → IsRead lib r c
    → All IsNil (issue_lists lib requested row r)
    → IsSoundBar lib requested c
readings-IsSoundBar lib requested row r c read nils = record {
  symbol =
      sym read.normalized
      ∙ symbol_issues-IsNil requested (normalized_of lib r.symbol.value) r.symbol.value
          c.original_symbol read.symbol (nil 2).0;
  date =
      subst (λ (o : Option Text). date_from lib o ≡ some c.trading_date) read.date_text
        read.trading_date;
  prices = (
    negative_issues-IsNil invalid_numeric_value (codes "open") r.open_price.value c.open_price
        read.open_price (nil 15).0,
    negative_issues-IsNil invalid_numeric_value (codes "high") r.high.value c.high read.high
        (nil 16).0,
    negative_issues-IsNil invalid_numeric_value (codes "low") r.low.value c.low read.low (nil 17).0,
    negative_issues-IsNil invalid_numeric_value (codes "close") r.close.value c.close read.close
        (nil 18).0,
  );
  traded =
      negative_issues-IsNil negative_volume (codes "volume") r.volume.value c.volume read.volume
        (nil 19).0;
  range = range_issues-IsNil r.high.value r.low.value c.high c.low read.high read.low (nil 20).0;
  opening =
      inside_issues-IsNil (codes "open") r.open_price.value r.high.value r.low.value c.open_price
        c.high c.low read.open_price read.high read.low (nil 21).0;
  closing =
      inside_issues-IsNil (codes "close") r.close.value r.high.value r.low.value c.close c.high
        c.low read.close read.high read.low (nil 22).0;
}
  where
    nil : (k : ℕ) → All IsNil (drop k (issue_lists lib requested row r))
    nil k = All-drop IsNil k (issue_lists lib requested row r) nils

-- The candidate of a row that is validated is sound: it has the requested symbol and the date of its
-- text, its amounts are not negative, and its opening and closing prices are in its range.
pub validate_row-IsSoundBar :
    (lib : Libraries) (requested : Text) (actual sequence : ℕ) (row : JsonObject)
    (result : RowValidationResult) (c : ParsedDailyBarCandidate)
    → validate_row lib requested actual sequence row ≡ ok result
    → result.candidate ≡ some c
    → IsSoundBar lib requested c
unfolding validate_row errors_of
validate_row-IsSoundBar lib requested actual sequence row result c e k =
    let (r, er, e1) = >>=-inv (read_row lib row) _ e in
    let (n, m) =
      made r (errors_of lib requested row r)
        (ap (λ (x : RowValidationResult). x.candidate) (ok_injective e1) ∙ k) in
    readings-IsSoundBar lib requested row r c (candidate_of-IsRead lib row sequence r c m)
      (concat-IsNil (issue_lists lib requested row r) n)
  where
    made :
        (r : RowReadings) (es : List RowValidationIssue)
        → candidate_unless es (candidate_of lib row sequence r) ≡ some c
        → IsNil es × (candidate_of lib row sequence r ≡ some c)
    made r [] h = (refl, h)
    made r (x ∷ es) h = absurd (ground arith)
