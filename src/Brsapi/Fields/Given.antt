-- ===== src/Brsapi/Fields/Given.antt =====
-- The values of the readers in integrations/brsapi/parser.py.
use bisfin.Base.Result.{ok, ok_injective}
use bisfin.Base.Int.{ℤ, pos}
use bisfin.Decimal.{Decimal}
use bisfin.Brsapi.Contracts.{RowValidationIssue, is_nil}
use bisfin.Base.Texts.{Text}
use bisfin.Brsapi.Json.{JsonObject, JsonValue, get, str, int, decimal, bool, array, object, null}
use bisfin.Base.{
  ◌∙◌, List, Option, is_some, ◌≡◌, true, some, arith, Option-cases, ℕ, none, inl, refl, inr, subst,
  Bool-cases, sym, ◌∙◌,
}
use bisfin.Brsapi.Fields.{
  string_field, Reading, integer_field, decimal_field, read_decimal, read_integer, decimal_of,
  read_integer_text, read_string, is_digits, without_plus, present,
}
use bisfin.Brsapi.Normalization.{Libraries, strip, normalize_digits, digits_from}

abbrev pub IsNil : List RowValidationIssue → Type 0
IsNil es = is_nil es ≡ true

abbrev pub IsGiven : JsonObject → Text → Type 0
IsGiven row f = is_some (get f row) ≡ true

read_string-given :
    (f : Text) (v : Option JsonValue)
    → is_some v ≡ true
    → IsNil (read_string f v).issues
    → is_some (read_string f v).value ≡ true
read_string-given f none g h = g
read_string-given f (some v) g h = ground arith

pub string_field-given :
    (row : JsonObject) (f : Text)
    → IsGiven row f
    → IsNil (string_field row f).issues
    → is_some (string_field row f).value ≡ true
unfolding string_field
string_field-given row f g h = read_string-given f (get f row) g h

module _ (lib : Libraries) where
  decimal_of-given :
      (f : Text) (o : Option (Option Decimal))
      → IsNil (decimal_of lib f o).issues
      → is_some (decimal_of lib f o).value ≡ true
  decimal_of-given f none h = absurd (ground arith)
  decimal_of-given f (some none) h = absurd (ground arith)
  decimal_of-given f (some (some d)) h = refl

  read_decimal-given :
      (f : Text) (v : JsonValue)
      → IsNil (read_decimal lib f (some v)).issues
      → is_some (read_decimal lib f (some v)).value ≡ true
  read_decimal-given f (str t) h =
      decimal_of-given f (lib.parse_decimal (strip (normalize_digits t))) h
  read_decimal-given f (decimal d) h = refl
  read_decimal-given f (int z) h = refl
  read_decimal-given f null h = absurd (ground arith)
  read_decimal-given f (bool b) h = absurd (ground arith)
  read_decimal-given f (array a) h = absurd (ground arith)
  read_decimal-given f (object o) h = absurd (ground arith)

  pub decimal_field-given :
      (row : JsonObject) (f : Text)
      → IsGiven row f
      → IsNil (decimal_field lib row f).issues
      → is_some (decimal_field lib row f).value ≡ true
  unfolding decimal_field
  decimal_field-given row f g h = elim (Option-cases (get f row)) [
    | inl e ↦ absurd (ground arith)
    | inr (v, e) ↦ rw e (
        read_decimal-given f v
          (subst (λ (o : Option JsonValue). IsNil (read_decimal lib f o).issues) e h))
  ]

  read_text-given :
      (f t : Text) (r : Reading ℤ)
      → read_integer_text lib f t ≡ ok r
      → IsNil r.issues
      → is_some r.value ≡ true
  read_text-given f t r e h = elim (Bool-cases (is_digits lib (without_plus lib t))) [
    | inr q ↦ absurd (ground arith)
    | inl q ↦ elim (Option-cases (digits_from lib 0 (without_plus lib t))) [
      | inl w ↦ absurd (ground arith)
      | inr (n, w) ↦
          subst (λ (x : Reading ℤ). is_some x.value ≡ true) (ok_injective (sym (made n q w) ∙ e))
            refl
    ]
  ]
    where
      made :
          (n : ℕ)
          → is_digits lib (without_plus lib t) ≡ true
          → digits_from lib 0 (without_plus lib t) ≡ some n
          → read_integer_text lib f t ≡ ok (present (pos n))
      made n q w = rw (q, w) refl

  read_integer-given :
      (f : Text) (v : JsonValue) (r : Reading ℤ)
      → read_integer lib f (some v) ≡ ok r
      → IsNil r.issues
      → is_some r.value ≡ true
  read_integer-given f (str t) r e h = read_text-given f (strip (normalize_digits t)) r e h
  read_integer-given f (int z) r e h = ground arith
  read_integer-given f null r e h = absurd (ground arith)
  read_integer-given f (bool b) r e h = absurd (ground arith)
  read_integer-given f (decimal d) r e h = absurd (ground arith)
  read_integer-given f (array a) r e h = absurd (ground arith)
  read_integer-given f (object o) r e h = absurd (ground arith)

  pub integer_field-given :
      (row : JsonObject) (f : Text) (r : Reading ℤ)
      → IsGiven row f
      → integer_field lib row f ≡ ok r
      → IsNil r.issues
      → is_some r.value ≡ true
  unfolding integer_field
  integer_field-given row f r g e h = elim (Option-cases (get f row)) [
    | inl q ↦ absurd (ground arith)
    | inr (v, q) ↦
        read_integer-given f v r (subst (λ (o : Option JsonValue). read_integer lib f o ≡ ok r) q e)
          h
  ]
