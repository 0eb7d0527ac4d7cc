-- ===== src/Repositories/Bars/Civil/Starts.antt =====
-- `value.replace(day=1)` of repositories/bar_writer_repository.py is the first day of the month.
use bisfin.Base.{
  ℕ, zero, suc, ◌+◌, ◌*◌, ◌/◌, ◌-◌, ◌%◌, ◌≤◌, ◌<◌, ◌≡◌, Bool, true, ◌&&◌, ◌==◌, ==_iff, refl, arith,
}
use bisfin.Repositories.Bars.{first_of_month}
use bisfin.Repositories.Bars.Civil.{days_in_month, ordinal, CivilDate, IsValid}
use bisfin.Repositories.Bars.Civil.Cycle.{days_in_month-cycle, ordinal-cycle, first_of_month-cycle}

holds_below : ℕ → (ℕ → Bool) → Bool
holds_below zero p = true
holds_below (suc n) p = p n && holds_below n p

holds_below_sound : (n k : ℕ) (p : ℕ → Bool) → holds_below n p ≡ true → k < n → p k ≡ true
unfolding holds_below
holds_below_sound zero k p h less = absurd (omega arith)
holds_below_sound (suc n) k p h less = ground (arith, holds_below_sound n k p)

abbrev is_start : ℕ → ℕ → ℕ → Bool
is_start year month k = first_of_month (ordinal year month (k + 1)) == ordinal year month 1

month_starts : ℕ → ℕ → Bool
unfolding holds_below ordinal first_of_month
month_starts year month = holds_below (days_in_month year month) (is_start year month)

year_starts : ℕ → Bool
unfolding month_starts
year_starts year = holds_below 12 (λ m. month_starts year (m + 1))

-- Every day of the first 400 years.
cycle_starts : holds_below 400 (λ y. year_starts (y + 1)) ≡ true
unfolding year_starts
cycle_starts = refl

first_of_month_in_cycle :
    (y m k : ℕ)
    → y < 400
    → m < 12
    → k < days_in_month (y + 1) (m + 1)
    → first_of_month (ordinal (y + 1) (m + 1) (k + 1)) ≡ ordinal (y + 1) (m + 1) 1
first_of_month_in_cycle y m k hy hm hk =
    let in_year = holds_below_sound 400 y (λ y. year_starts (y + 1)) cycle_starts hy in
    let in_month =
      holds_below_sound 12 m (λ m. month_starts (y + 1) (m + 1)) (unfold year_starts in in_year)
        hm in
    let day =
      holds_below_sound (days_in_month (y + 1) (m + 1)) k (is_start (y + 1) (m + 1))
        (unfold month_starts in in_month) hk in
    (==_iff (first_of_month (ordinal (y + 1) (m + 1) (k + 1))) (ordinal (y + 1) (m + 1) 1)).0 day

ordinal_pos : (year month : ℕ) → 1 ≤ ordinal year month 1
unfolding ordinal
ordinal_pos year month = omega arith

first_of_month_from_cycle :
    (q y m k : ℕ)
    → y < 400
    → m < 12
    → k < days_in_month (400 * q + (y + 1)) (m + 1)
    → first_of_month (ordinal (400 * q + (y + 1)) (m + 1) (k + 1))
      ≡ ordinal (400 * q + (y + 1)) (m + 1) 1
first_of_month_from_cycle q y m k hy hm hk =
    let (off, here, there) = first_of_month-cycle q (ordinal (y + 1) (m + 1) (k + 1)) in
    let start =
      first_of_month_in_cycle y m k hy hm (rw (days_in_month-cycle q (y + 1) (m + 1)) at hk) in
    rw (ordinal-cycle q (y + 1) (m + 1) (k + 1) (omega arith)) (
      omega (
        arith,
        ordinal-cycle q (y + 1) (m + 1) 1 (omega arith),
        ordinal_pos (y + 1) (m + 1),
        start,
        here,
        there,
      ))

-- The first day of the month of a valid date.
pub first_of_month-ordinal :
    (d : CivilDate)
    → IsValid d
    → first_of_month (ordinal d.year d.month d.day) ≡ ordinal d.year d.month 1
first_of_month-ordinal d v =
    let q = (d.year - 1) / 400 in
    let y = (d.year - 1) % 400 in
    let same_year : 400 * q + (y + 1) ≡ d.year = omega (arith, v.year) in
    let same_month : d.month - 1 + 1 ≡ d.month = omega (arith, v.month_from) in
    let same_day : d.day - 1 + 1 ≡ d.day = omega (arith, v.day_from) in
    let day_in : d.day - 1 < days_in_month (400 * q + (y + 1)) (d.month - 1 + 1) =
      rw (same_year, same_month) (omega (arith, v.day_from, v.day_to)) in
    let found =
      first_of_month_from_cycle q y (d.month - 1) (d.day - 1) (omega arith)
        (omega (arith, v.month_from, v.month_to)) day_in in
    rw (same_year, same_month, same_day) at found
