-- ===== src/Repositories/Bars/Civil/Cycle.antt =====
-- The calendar repeats after 400 years, or 146097 days.
use bisfin.Base.{ℕ, zero, suc, ◌+◌, ◌*◌, ◌-◌, ◌%◌, ◌≤◌, ◌≡◌, refl, arith}
use bisfin.Repositories.Bars.{first_of_month}
use bisfin.Repositories.Bars.Civil.{is_leap, days_in_month, days_of_months, ordinal}

pub is_leap-cycle : (q year : ℕ) → is_leap (400 * q + year) ≡ is_leap year
unfolding is_leap
is_leap-cycle q year =
    let four : (400 * q + year) % 4 ≡ year % 4 = omega arith in
    let hundred : (400 * q + year) % 100 ≡ year % 100 = omega arith in
    let all : (400 * q + year) % 400 ≡ year % 400 = omega arith in rw (four, hundred, all) refl

pub days_in_month-cycle :
    (q year month : ℕ) → days_in_month (400 * q + year) month ≡ days_in_month year month
unfolding days_in_month
days_in_month-cycle q year month = rw (is_leap-cycle q year) refl

days_of_months-cycle : (q year n : ℕ) → days_of_months (400 * q + year) n ≡ days_of_months year n
unfolding days_of_months
days_of_months-cycle q year zero = refl
days_of_months-cycle q year (suc n) =
    rw (days_in_month-cycle q year (suc n), days_of_months-cycle q year n) refl

pub ordinal-cycle :
    (q year month day : ℕ)
    → 1 ≤ year
    → ordinal (400 * q + year) month day ≡ 146097 * q + ordinal year month day
unfolding ordinal
ordinal-cycle q year month day h = omega (arith, days_of_months-cycle q year (month - 1))

-- One number of days is taken off a date and off the same date in another cycle.
pub first_of_month-cycle :
    (q date : ℕ)
    → (k : ℕ) × (first_of_month date ≡ date - k)
      × (first_of_month (146097 * q + date) ≡ 146097 * q + date - k)
unfolding first_of_month
first_of_month-cycle q date =
    let same : (146097 * q + date + 305) % 146097 ≡ (date + 305) % 146097 = omega arith in
    (_, refl, rw same refl)
