-- ===== src/Scheduler/Clock/Weekdays.antt =====
-- A day of the year falls on each weekday in some leap year.
use Prim.Native.Nat.{◌+◌, ◌-◌, ◌%◌}
use agenstfer_agi.Base.{ℕ, zero, suc, ◌≤◌, ◌≡◌, refl, true, arith}
use agenstfer_agi.Scheduler.Clock.{
  is_leap, days_in_month, days_of_months, days_before_year, weekday_of,
}

pub days_in_month-leap : (y m : ℕ) → is_leap y ≡ true → days_in_month y m ≡ days_in_month 2000 m
unfolding days_in_month
days_in_month-leap y m leap = rw leap (unfold is_leap in refl)

days_of_months-leap : (y m : ℕ) → is_leap y ≡ true → days_of_months y m ≡ days_of_months 2000 m
unfolding days_of_months
days_of_months-leap y zero leap = refl
days_of_months-leap y (suc m) leap =
    rw (days_of_months-leap y m leap, days_in_month-leap y (suc m) leap) refl

-- A leap year that begins on a weekday.
pub record LeapYear (weekday : ℕ) : Type 0 where
  pub year : ℕ
  pub from_one : 1 ≤ year
  pub in_range : year ≤ 9999
  pub leap : is_leap year ≡ true
  pub begins : days_before_year year % 7 ≡ weekday

abbrev leap_year :
    (w y : ℕ) → 1 ≤ y → y ≤ 9999 → is_leap y ≡ true → days_before_year y % 7 ≡ w → LeapYear w
leap_year w y a b c d = record { year = y; from_one = a; in_range = b; leap = c; begins = d }

year_beginning : (w : ℕ) → w ≤ 6 → LeapYear w
unfolding is_leap days_before_year
year_beginning zero h = leap_year 0 2024 (omega arith) (omega arith) refl refl
year_beginning (suc zero) h = leap_year 1 2008 (omega arith) (omega arith) refl refl
year_beginning (suc (suc zero)) h = leap_year 2 2020 (omega arith) (omega arith) refl refl
year_beginning (suc (suc (suc zero))) h = leap_year 3 2004 (omega arith) (omega arith) refl refl
year_beginning (suc (suc (suc (suc zero)))) h =
    leap_year 4 2016 (omega arith) (omega arith) refl refl
year_beginning (suc (suc (suc (suc (suc zero))))) h =
    leap_year 5 2000 (omega arith) (omega arith) refl refl
year_beginning (suc (suc (suc (suc (suc (suc zero)))))) h =
    leap_year 6 2012 (omega arith) (omega arith) refl refl
year_beginning (suc (suc (suc (suc (suc (suc (suc n))))))) h = absurd (omega arith)

shift : (o w : ℕ) → w ≤ 6 → (k : ℕ) × (k ≤ 6) × ((k + o) % 7 ≡ w)
shift o w h = ((w + (7 - o % 7)) % 7, omega arith, omega arith)

-- For a day of the year and a weekday, a leap year in which the one is the other.
pub year_with :
    (month day w : ℕ)
    → w ≤ 6
    → (y : ℕ) × (1 ≤ y) × (y ≤ 9999) × (is_leap y ≡ true) × (weekday_of y month day ≡ w)
unfolding weekday_of
year_with month day w h =
    let o = days_of_months 2000 (month - 1) + (day - 1) in
    let (k, few, falls) = shift o w h in
    let y = year_beginning k few in
    (
      y.year,
      y.from_one,
      y.in_range,
      y.leap,
      rw (days_of_months-leap y.year (month - 1) y.leap) (omega (arith, y.begins, falls)),
    )

pub days_in_month-most : (y m : ℕ) → days_in_month y m ≤ days_in_month 2000 m
unfolding days_in_month is_leap
days_in_month-most y m = ground arith
