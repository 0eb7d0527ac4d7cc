-- ===== src/Brsapi/Rows/Complete.antt =====
-- The errors and the candidate of `_validate_row` in integrations/brsapi/parser.py.
use bisfin.Base.Int.{ℤ}
use bisfin.Brsapi.Fields.{integer_field, Reading, string_field}
use bisfin.Base.Result.{ok, >>=-inv, ok_injective}
use bisfin.Brsapi.Normalization.{Libraries}
use bisfin.Brsapi.Candidate.{candidate_of, RowReadings, date_from}
use bisfin.Brsapi.Fields.Given.{
  IsNil, IsGiven, string_field-given, integer_field-given, decimal_field-given,
}
use bisfin.Brsapi.Contracts.{RowValidationIssue, RowValidationResult, is_nil}
use bisfin.Brsapi.Json.{JsonObject, get}
use bisfin.Base.Texts.{Text, codes}
use bisfin.Base.{
  List, All, is_some, concat, ◌∷◌, ◌++◌, Bool-cases, arith, [], inl, refl, inr, ◌≡◌, Option, ℕ,
  true, is_some-inv, some, none, subst, ap, drop, All-drop,
}
use bisfin.Brsapi.Rows.{
  missing_fields, errors_of, read_row, date_issues, result_from, validate_row, readings_of,
  candidate_unless, required_fields, issue_lists,
}

IsNil-append : (xs ys : List RowValidationIssue) → IsNil (xs ++ ys) → IsNil xs × IsNil ys
IsNil-append [] ys h = (refl, h)
IsNil-append (x ∷ xs) ys h = absurd (ground arith)

pub concat-IsNil : (xss : List (List RowValidationIssue)) → IsNil (concat xss) → All IsNil xss
concat-IsNil [] h = tt
concat-IsNil (xs ∷ xss) h = let (k, l) = IsNil-append xs (concat xss) h in (k, concat-IsNil xss l)

missing_fields-IsNil :
    (row : JsonObject) (fs : List Text) → IsNil (missing_fields row fs) → All (IsGiven row) fs
unfolding missing_fields
missing_fields-IsNil row [] h = tt
missing_fields-IsNil row (f ∷ fs) h = elim (Bool-cases (is_some (get f row))) [
  | inl e ↦ (e, missing_fields-IsNil row fs (ground arith))
  | inr e ↦ absurd (ground arith)
]

date_issues-IsNil :
    (lib : Libraries) (o : Option Text)
    → is_some o ≡ true
    → IsNil (date_issues lib o)
    → is_some (date_from lib o) ≡ true
date_issues-IsNil lib none g h = g
date_issues-IsNil lib (some t) g h = ground arith

-- Every required value of the readings is there.
record IsComplete (lib : Libraries) (r : RowReadings) : Type 0 where
  symbol : is_some r.symbol.value ≡ true
  response_type : is_some r.response_type.value ≡ true
  declared_count : is_some r.declared_count.value ≡ true
  date_text : is_some r.date_text.value ≡ true
  trading_date : is_some (date_from lib r.date_text.value) ≡ true
  open_price : is_some r.open_price.value ≡ true
  high : is_some r.high.value ≡ true
  low : is_some r.low.value ≡ true
  close : is_some r.close.value ≡ true
  volume : is_some r.volume.value ≡ true

candidate_of_complete :
    (lib : Libraries) (row : JsonObject) (sequence : ℕ) (r : RowReadings)
    → IsComplete lib r
    → is_some (candidate_of lib row sequence r) ≡ true
unfolding candidate_of
candidate_of_complete lib row sequence r c =
    let (symbol, e1) = is_some-inv r.symbol.value c.symbol in
    let (response_type, e2) = is_some-inv r.response_type.value c.response_type in
    let (declared_count, e3) = is_some-inv r.declared_count.value c.declared_count in
    let (date_text, e4) = is_some-inv r.date_text.value c.date_text in
    let (trading_date, e5) = is_some-inv (date_from lib r.date_text.value) c.trading_date in
    let (open_price, e6) = is_some-inv r.open_price.value c.open_price in
    let (high, e7) = is_some-inv r.high.value c.high in
    let (low, e8) = is_some-inv r.low.value c.low in
    let (close, e9) = is_some-inv r.close.value c.close in
    let (volume, e10) = is_some-inv r.volume.value c.volume in
    rw (e1, e2, e3, e5, e4, e6, e7, e8, e9, e10) refl

readings_of-IsComplete :
    (lib : Libraries) (requested : Text) (row : JsonObject) (t n : Reading ℤ)
    → integer_field lib row (codes "type") ≡ ok t
    → integer_field lib row (codes "count") ≡ ok n
    → IsNil (errors_of lib requested row (readings_of lib row t n))
    → IsComplete lib (readings_of lib row t n)
unfolding errors_of
readings_of-IsComplete lib requested row t n et en h =
    let date = string_field-given row (codes "date") (given 3).0 (nil 6).0 in
    record {
      symbol = string_field-given row (codes "l18") (given 0).0 (nil 1).0;
      response_type = integer_field-given lib row (codes "type") t (given 1).0 et (nil 3).0;
      declared_count = integer_field-given lib row (codes "count") n (given 2).0 en (nil 4).0;
      date_text = date;
      trading_date = date_issues-IsNil lib (string_field row (codes "date")).value date (nil 7).0;
      open_price = decimal_field-given lib row (codes "open") (given 4).0 (nil 10).0;
      high = decimal_field-given lib row (codes "high") (given 5).0 (nil 11).0;
      low = decimal_field-given lib row (codes "low") (given 6).0 (nil 12).0;
      close = decimal_field-given lib row (codes "close") (given 7).0 (nil 13).0;
      volume = decimal_field-given lib row (codes "volume") (given 8).0 (nil 14).0;
    }
  where
    lists : List (List RowValidationIssue)
    lists = issue_lists lib requested row (readings_of lib row t n)

    nil : (k : ℕ) → All IsNil (drop k lists)
    nil k = All-drop IsNil k lists (concat-IsNil lists h)

    given : (k : ℕ) → All (IsGiven row) (drop k required_fields)
    given k =
        All-drop (IsGiven row) k required_fields
          (missing_fields-IsNil row required_fields (nil 0).0)

result_from_complete :
    (lib : Libraries) (requested : Text) (actual sequence : ℕ) (row : JsonObject) (r : RowReadings)
    → (IsNil (errors_of lib requested row r) → IsComplete lib r)
    → is_some (result_from lib requested actual sequence row r).candidate
      ≡ is_nil (errors_of lib requested row r)
result_from_complete lib requested actual sequence row r h =
    unless (errors_of lib requested row r) refl
  where
    unless :
        (es : List RowValidationIssue)
        → errors_of lib requested row r ≡ es
        → is_some (candidate_unless es (candidate_of lib row sequence r)) ≡ is_nil es
    unless [] e = candidate_of_complete lib row sequence r (h (ap is_nil e))
    unless (x ∷ es) e = refl

-- A row that is validated has a candidate exactly if it has no errors: then every required field is
-- there and was read. The result is meant for canonicalization exactly then, and keeps the row.
pub validate_row_complete :
    (lib : Libraries) (requested : Text) (actual sequence : ℕ) (row : JsonObject)
    (result : RowValidationResult)
    → validate_row lib requested actual sequence row ≡ ok result
    → (is_some result.candidate ≡ is_nil result.errors)
      × (result.include_in_canonicalization ≡ is_nil result.errors)
      × (result.source_sequence ≡ sequence)
      × (result.raw_payload ≡ row)
unfolding validate_row read_row
validate_row_complete lib requested actual sequence row result e =
    let (r, er, e1) = >>=-inv (read_row lib row) _ e in
    let (t, et, e2) = >>=-inv (integer_field lib row (codes "type")) _ er in
    let (n, en, e3) = >>=-inv (integer_field lib row (codes "count")) _ e2 in
    let full =
      result_from_complete lib requested actual sequence row (readings_of lib row t n)
        (readings_of-IsComplete lib requested row t n et en) in
    subst Holds (ok_injective e1) (
      subst (λ (x : RowReadings). Holds (result_from lib requested actual sequence row x))
        (ok_injective e3) (full, full, refl, refl))
  where
    Holds : RowValidationResult → Type 0
    Holds x =
        (is_some x.candidate ≡ is_nil x.errors)
        × (x.include_in_canonicalization ≡ is_nil x.errors)
        × (x.source_sequence ≡ sequence)
        × (x.raw_payload ≡ row)
