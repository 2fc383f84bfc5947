-- ===== src/Scheduler/Clock.antt =====
-- The local times of workflow/scheduler.py: what `instant.astimezone(zone)` gives, with the calendar
-- of Python's datetime.
pub mod Weekdays
use Prim.Native.Nat.{◌+◌, ◌-◌, ◌*◌, ◌/◌, ◌%◌}
use agenstfer_agi.Base.{ℕ, zero, suc, Bool, true, ◌≡◌, ◌&&◌, ◌||◌, not, nat_beq, leb, if◌then◌else◌}

unfoldable pub is_leap : ℕ → Bool
is_leap y = nat_beq (y % 4) 0 && (not (nat_beq (y % 100) 0) || nat_beq (y % 400) 0)

unfoldable pub days_in_month : ℕ → ℕ → ℕ
unfolding is_leap
days_in_month y m =
    if nat_beq m 2
    then (if is_leap y then 29 else 28)
    else if nat_beq m 4 || nat_beq m 6 || nat_beq m 9 || nat_beq m 11
    then 30
    else 31

-- The days of the first months of a year.
unfoldable pub days_of_months : ℕ → ℕ → ℕ
unfolding days_in_month
days_of_months y zero = 0
days_of_months y (suc m) = days_of_months y m + days_in_month y (suc m)

-- The days of the years from 1 to the one before.
unfoldable pub days_before_year : ℕ → ℕ
days_before_year y = let p = y - 1 in p * 365 + p / 4 - p / 100 + p / 400

unfoldable pub is_time : ℕ → ℕ → ℕ → ℕ → ℕ → Bool
unfolding days_in_month
is_time year month day hour minute =
    leb 1 year
    && leb year 9999
    && leb 1 month
    && leb month 12
    && leb 1 day
    && leb day (days_in_month year month)
    && leb hour 23
    && leb minute 59

-- A minute of a day that exists.
pub record LocalTime : Type 0 where
  pub year : ℕ
  pub month : ℕ
  pub day : ℕ
  pub hour : ℕ
  pub minute : ℕ
  pub exists : is_time year month day hour minute ≡ true

-- `weekday()`: the first of January of year 1 is a Monday, of number 0.
unfoldable pub weekday_of : ℕ → ℕ → ℕ → ℕ
unfolding days_before_year days_of_months
weekday_of year month day =
    (days_before_year year + days_of_months year (month - 1) + (day - 1)) % 7

unfoldable pub local_weekday : LocalTime → ℕ
unfolding weekday_of
local_weekday t = weekday_of t.year t.month t.day
