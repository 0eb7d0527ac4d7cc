-- ===== src/Repositories/Bars/Civil.antt =====
-- The days of the proleptic Gregorian calendar by year, month and day, as `datetime.date` counts them,
-- for the months of repositories/bar_writer_repository.py.
pub mod Cycle
pub mod Starts
use bisfin.Base.{
  ℕ, zero, suc, ◌+◌, ◌*◌, ◌/◌, ◌-◌, ◌%◌, ◌≤◌, Bool, ◌&&◌, ◌||◌, not, ◌==◌, if◌then◌else◌,
}

-- A multiple of four, and of 400 if it is one of 100.
unfoldable pub is_leap : ℕ → Bool
is_leap year = (year % 4 == 0) && (not (year % 100 == 0) || (year % 400 == 0))

unfoldable pub days_in_month : ℕ → ℕ → ℕ
unfolding is_leap
days_in_month year month =
    if month == 2
    then if is_leap year then 29 else 28
    else if (month == 4) || (month == 6) || (month == 9) || (month == 11)
    then 30
    else 31

-- The days of the first `n` months.
unfoldable pub days_of_months : ℕ → ℕ → ℕ
unfolding days_in_month
days_of_months year zero = 0
days_of_months year (suc n) = days_in_month year (suc n) + days_of_months year n

-- The days of the first `n` years.
abbrev pub days_of_years : ℕ → ℕ
days_of_years n = 365 * n + n / 4 - n / 100 + n / 400

pub record CivilDate : Type 0 where
  pub year : ℕ
  pub month : ℕ
  pub day : ℕ

pub record IsValid (d : CivilDate) : Type 0 where
  pub year : 1 ≤ d.year
  pub month_from : 1 ≤ d.month
  pub month_to : d.month ≤ 12
  pub day_from : 1 ≤ d.day
  pub day_to : d.day ≤ days_in_month d.year d.month

-- `date.toordinal`: 0001-01-01 is day 1.
unfoldable pub ordinal : ℕ → ℕ → ℕ → ℕ
unfolding days_of_months
ordinal year month day = days_of_years (year - 1) + days_of_months year (month - 1) + day
