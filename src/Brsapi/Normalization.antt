-- ===== src/Brsapi/Normalization.antt =====
-- integrations/brsapi/normalization.py: digits, symbols, dates and times. The Unicode tables of the
-- interpreter and the calendar of `jdatetime` are parameters.
use bisfin.Brsapi.Json.{JsonObject}
use bisfin.Decimal.{Decimal}
use bisfin.Base.Texts.{Text}
use bisfin.Base.{
  ℕ, Bool, if◌then◌else◌, Option, ◌==◌, map, leb, ◌∷◌, false, some, ◌-◌, ◌||◌, true, [], ◌&&◌, ltb,
  none, ◌*◌, ◌+◌,
}

-- NFKC, the value of a decimal digit, the other characters that `str.isdigit` takes for digits, and
-- the conversion of a Jalali date to a day number, where there is such a date.
pub record Libraries : Type 0 where
  pub nfkc : Text → Text
  pub decimal_digit : ℕ → Option ℕ
  pub is_other_digit : ℕ → Bool
  pub to_gregorian : ℕ → ℕ → ℕ → Option ℕ
  pub parse_decimal : Text → Option (Option Decimal)
  pub payload_sha256 : JsonObject → Text

-- A `datetime.time` without its microseconds.
pub record SourceTime : Type 0 where
  pub hour : ℕ
  pub minute : ℕ
  pub second : ℕ

abbrev between : ℕ → ℕ → ℕ → Bool
between a b c = leb a c && leb c b

-- `_DIGIT_TRANSLATION`: the Persian digits from U+06F0 and the Arabic ones from U+0660.
abbrev translate_digit : ℕ → ℕ
translate_digit c =
    if between 1776 1785 c then c - 1728 else if between 1632 1641 c then c - 1584 else c

unfoldable pub normalize_digits : Text → Text
normalize_digits t = map translate_digit t

-- `_PERSIAN_LETTER_TRANSLATION`: U+064A and U+0649 to U+06CC, U+0643 to U+06A9.
abbrev translate_letter : ℕ → ℕ
translate_letter c = if (c == 1610) || (c == 1609) then 1740 else if c == 1603 then 1705 else c

-- The characters of `\s` and of `str.strip`.
unfoldable pub is_space : ℕ → Bool
is_space c =
    between 9 13 c
    || between 28 32 c
    || (c == 133)
    || (c == 160)
    || (c == 5760)
    || between 8192 8202 c
    || (c == 8232)
    || (c == 8233)
    || (c == 8239)
    || (c == 8287)
    || (c == 12288)

-- `_WHITESPACE.sub(" ", t)`: each run of white space is one blank. The flag says that the last
-- character was white space.
unfoldable pub collapse : Bool → Text → Text
collapse after_space [] = []
collapse after_space (c ∷ cs) =
    let skipped = collapse true cs in
    let kept = collapse false cs in
    if is_space c then (if after_space then skipped else 32 ∷ skipped) else c ∷ kept

unfoldable pub lstrip : Text → Text
lstrip [] = []
lstrip (c ∷ cs) = let rest = lstrip cs in if is_space c then rest else c ∷ cs

unfoldable pub rstrip : Text → Text
rstrip [] = []
rstrip (c ∷ cs) = elim (rstrip cs) [ [] ↦ if is_space c then [] else c ∷ [] | d ∷ ds ↦ c ∷ d ∷ ds ]

unfoldable pub strip : Text → Text
unfolding lstrip rstrip
strip t = rstrip (lstrip t)

module _ (lib : Libraries) where
  unfoldable pub normalize_brsapi_symbol : Text → Text
  unfolding collapse strip normalize_digits
  normalize_brsapi_symbol t =
      strip (collapse false (normalize_digits (map translate_letter (lib.nfkc t))))

  -- `int` of decimal digits.
  abbrev pub digits_from : ℕ → Text → Option ℕ
  digits_from acc [] = some acc
  digits_from acc (c ∷ cs) = elim (lib.decimal_digit c) [
    | none ↦ none
    | some d ↦ digits_from (10 * acc + d) cs
  ]

  abbrev date_of : Option ℕ → Option ℕ → Option ℕ → Option ℕ
  date_of (some y) (some m) (some d) = lib.to_gregorian y m d
  date_of none m d = none
  date_of (some y) none d = none
  date_of (some y) (some m) none = none

  abbrev separated_by : ℕ → ℕ → Bool
  separated_by a b = (a == b) && ((a == 45) || (a == 47))

  -- `_JALALI_DATE`: YYYY-MM-DD or YYYY/MM/DD.
  abbrev match_date : Text → Option ℕ
  match_date (a ∷ b ∷ c ∷ d ∷ s ∷ e ∷ f ∷ t ∷ g ∷ h ∷ []) =
      if separated_by s t
      then date_of (digits_from 0 (a ∷ b ∷ c ∷ d ∷ [])) (digits_from 0 (e ∷ f ∷ []))
          (digits_from 0 (g ∷ h ∷ []))
      else none
  match_date _ = none

  -- The date as a day number; `none` for a `ValueError`.
  unfoldable pub parse_jalali_date : Text → Option ℕ
  unfolding normalize_digits strip
  parse_jalali_date t = match_date (strip (normalize_digits (lib.nfkc t)))

  abbrev time_of : Option ℕ → Option ℕ → Option ℕ → Option SourceTime
  time_of (some h) (some m) (some s) =
      if ltb h 24 && ltb m 60 && ltb s 60
      then some (record { hour = h; minute = m; second = s })
      else none
  time_of none m s = none
  time_of (some h) none s = none
  time_of (some h) (some m) none = none

  -- `_SOURCE_TIME`: HH:MM or HH:MM:SS.
  abbrev match_time : Text → Option SourceTime
  match_time (a ∷ b ∷ p ∷ c ∷ d ∷ []) =
      if p == 58
      then time_of (digits_from 0 (a ∷ b ∷ [])) (digits_from 0 (c ∷ d ∷ [])) (some 0)
      else none
  match_time (a ∷ b ∷ p ∷ c ∷ d ∷ q ∷ e ∷ f ∷ []) =
      if (p == 58) && (q == 58)
      then time_of (digits_from 0 (a ∷ b ∷ [])) (digits_from 0 (c ∷ d ∷ []))
          (digits_from 0 (e ∷ f ∷ []))
      else none
  match_time _ = none

  unfoldable pub parse_source_time : Text → Option SourceTime
  unfolding normalize_digits strip
  parse_source_time t = match_time (strip (normalize_digits (lib.nfkc t)))
