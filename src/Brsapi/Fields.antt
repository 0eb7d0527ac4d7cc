-- ===== src/Brsapi/Fields.antt =====
-- The readers of a field in integrations/brsapi/parser.py: the value, and the issues that it adds.
pub mod Given
use bisfin.Base.Int.{ℤ, pos}
use bisfin.Decimal.{Decimal}
use bisfin.Base.Result.{Result, err, ok}
use bisfin.Base.Texts.{Text}
use bisfin.Brsapi.Normalization.{Libraries, strip, digits_from, normalize_digits}
use bisfin.Brsapi.Contracts.{
  RowValidationCode, issue, invalid_numeric_value, RowValidationIssue, ParseError,
  invalid_field_type, value_error,
}
use bisfin.Brsapi.Json.{JsonObject, JsonValue, get, str, decimal, int, bool, array, object, null}
use bisfin.Base.{
  some, none, Option, ℕ, [], ◌∷◌, Bool, List, if◌then◌else◌, false, true, is_some, ◌==◌, ◌||◌, ◌&&◌,
}

-- What a reader returns, and what it appends to `errors`.
pub record Reading (A : Type 0) : Type 0 where
  pub value : Option A
  pub issues : List RowValidationIssue

abbrev pub absent : {A : Type 0} → Reading A
absent = record { value = none; issues = [] }

abbrev pub present : {A : Type 0} → A → Reading A
present a = record { value = some a; issues = [] }

abbrev pub refused : {A : Type 0} → RowValidationCode → Text → Reading A
refused c f = record { value = none; issues = issue c f ∷ [] }

abbrev read_string : Text → Option JsonValue → Reading Text
read_string f none = absent
read_string f (some (str t)) = present t
read_string f (some null) = refused invalid_field_type f
read_string f (some (bool b)) = refused invalid_field_type f
read_string f (some (int z)) = refused invalid_field_type f
read_string f (some (decimal d)) = refused invalid_field_type f
read_string f (some (array a)) = refused invalid_field_type f
read_string f (some (object o)) = refused invalid_field_type f

-- `_string_field`.
unfoldable pub string_field : JsonObject → Text → Reading Text
string_field row f = read_string f (get f row)

module _ (lib : Libraries) where
  -- `str.isdigit` of a text that may be empty.
  abbrev all_digits : Text → Bool
  all_digits [] = true
  all_digits (c ∷ cs) = (is_some (lib.decimal_digit c) || lib.is_other_digit c) && all_digits cs

  abbrev is_digits : Text → Bool
  is_digits [] = false
  is_digits (c ∷ cs) = all_digits (c ∷ cs)

  abbrev without_plus : Text → Text
  without_plus [] = []
  without_plus (c ∷ cs) = if c == 43 then cs else c ∷ cs

  -- `int(normalized)`: it raises for a digit that is not a decimal one.
  abbrev int_of : Option ℕ → Result ParseError (Reading ℤ)
  int_of none = err value_error
  int_of (some n) = ok (present (pos n))

  abbrev read_integer_text : Text → Text → Result ParseError (Reading ℤ)
  read_integer_text f t =
      if is_digits (without_plus t)
      then int_of (digits_from lib 0 (without_plus t))
      else ok (refused invalid_field_type f)

  abbrev read_integer : Text → Option JsonValue → Result ParseError (Reading ℤ)
  read_integer f none = ok absent
  read_integer f (some (int z)) = ok (present z)
  read_integer f (some (str t)) = read_integer_text f (strip (normalize_digits t))
  read_integer f (some null) = ok (refused invalid_field_type f)
  read_integer f (some (bool b)) = ok (refused invalid_field_type f)
  read_integer f (some (decimal d)) = ok (refused invalid_field_type f)
  read_integer f (some (array a)) = ok (refused invalid_field_type f)
  read_integer f (some (object o)) = ok (refused invalid_field_type f)

  -- `_integer_field`.
  unfoldable pub integer_field : JsonObject → Text → Result ParseError (Reading ℤ)
  integer_field row f = read_integer f (get f row)

  -- `Decimal(text)`: `none` raises, `some none` is not finite.
  abbrev decimal_of : Text → Option (Option Decimal) → Reading Decimal
  decimal_of f none = refused invalid_numeric_value f
  decimal_of f (some none) = refused invalid_numeric_value f
  decimal_of f (some (some d)) = present d

  abbrev read_decimal : Text → Option JsonValue → Reading Decimal
  read_decimal f none = absent
  read_decimal f (some (decimal d)) = present d
  read_decimal f (some (int z)) = present (record { coefficient = z; scale = 0 })
  read_decimal f (some (str t)) = decimal_of f (lib.parse_decimal (strip (normalize_digits t)))
  read_decimal f (some null) = refused invalid_numeric_value f
  read_decimal f (some (bool b)) = refused invalid_numeric_value f
  read_decimal f (some (array a)) = refused invalid_numeric_value f
  read_decimal f (some (object o)) = refused invalid_numeric_value f

  -- `_decimal_field`.
  unfoldable pub decimal_field : JsonObject → Text → Reading Decimal
  decimal_field row f = read_decimal f (get f row)
