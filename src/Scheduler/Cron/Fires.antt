-- ===== src/Scheduler/Cron/Fires.antt =====
-- The local times at which an accepted schedule fires.
use Prim.Native.Nat.{◌+◌, ◌%◌}
use Prim.Native.String.{String}
use agenstfer_agi.Base.{ℕ, ◌≤◌, ◌≡◌, ◌↔◌, refl, Bool, true, some, List, [], ◌∷◌, arith, &&-true}
use agenstfer_agi.Scheduler.Clock.{LocalTime, local_weekday, days_in_month, is_leap, is_time}
use agenstfer_agi.Scheduler.Clock.Weekdays.{days_in_month-leap, days_in_month-most, year_with}
use agenstfer_agi.Scheduler.Cron.{
  field_matches, field_valid, fields_valid, cron_fields_match, cron_matches, schedule_valid,
}
use agenstfer_agi.Scheduler.Cron.Valid.{Denotes, field_valid-Denotes}

-- An hour and a minute of a day of a leap year.
leap_time :
    (year month day hour minute : ℕ)
    → is_leap year ≡ true
    → 1 ≤ year
    → year ≤ 9999
    → 1 ≤ month
    → month ≤ 12
    → 1 ≤ day
    → day ≤ days_in_month 2000 month
    → hour ≤ 23
    → minute ≤ 59
    → is_time year month day hour minute ≡ true
unfolding is_time
leap_time year month day hour minute leap a b c d e f g h =
    rw (days_in_month-leap year month leap) (ground arith)

-- A local time of the day and the month at which the fields match.
abbrev pub FiresOn : List String → ℕ → ℕ → Type 0
FiresOn fields month day =
    (t : LocalTime) × (t.month ≡ month) × (t.day ≡ day) × (cron_fields_match t fields ≡ some true)

five_fire :
    (a b c d e : String) (month day : ℕ)
    → Denotes 0 59 a
    → Denotes 0 23 b
    → Denotes 1 31 c
    → Denotes 1 12 d
    → Denotes 0 6 e
    → field_matches day c 1 31 ≡ true
    → field_matches month d 1 12 ≡ true
    → day ≤ days_in_month 2000 month
    → FiresOn (a ∷ b ∷ c ∷ d ∷ e ∷ []) month day
unfolding cron_fields_match local_weekday
five_fire a b c d e month day fa fb fc fd fe on_day in_month there =
    let (la, ha) = fa.bounded_by fa.first fa.fires in
    let (lb, hb) = fb.bounded_by fb.first fb.fires in
    let (lc, hc) = fc.bounded_by day on_day in
    let (ld, hd) = fd.bounded_by month in_month in
    let (le, he) = fe.bounded_by fe.first fe.fires in
    let (y, from_one, in_range, leap, falls) =
      year_with month day ((fe.first + 6) % 7) (omega arith) in
    let cron_day : ((fe.first + 6) % 7 + 1) % 7 ≡ fe.first = omega arith in
    (
      record {
        year = y;
        month = month;
        day = day;
        hour = fb.first;
        minute = fa.first;
        exists =
            leap_time y month day fb.first fa.first leap from_one in_range ld hd lc there hb ha;
      },
      refl,
      refl,
      rw (falls, cron_day, fa.fires, fb.fires, on_day, in_month, fe.fires) refl,
    )

-- An accepted schedule fires on each day that its third and fourth field match, if that day is one
-- of a leap year.
pub schedule_fires :
    (split : String → List String) (is_zone : String → Bool) (cron timezone a b c d e : String)
    → (month day : ℕ) → schedule_valid split is_zone cron timezone ≡ true
    → split cron ≡ a ∷ b ∷ c ∷ d ∷ e ∷ []
    → field_matches day c 1 31 ≡ true
    → field_matches month d 1 12 ≡ true
    → day ≤ days_in_month 2000 month
    → (t : LocalTime) × (t.month ≡ month) × (t.day ≡ day) × (cron_matches split t cron ≡ some true)
unfolding schedule_valid cron_matches fields_valid
schedule_fires split is_zone cron timezone a b c d e month day valid fields on_day in_month there =
    let h = (&&-true (fields_valid (split cron)) (is_zone timezone) valid).0 in
    let h₀ = rw fields at h in
    let (h₁, ve) = &&-true _ (field_valid 0 6 e) h₀ in
    let (h₂, vd) = &&-true _ (field_valid 1 12 d) h₁ in
    let (h₃, vc) = &&-true _ (field_valid 1 31 c) h₂ in
    let (h₄, vb) = &&-true _ (field_valid 0 23 b) h₃ in
    let (h₅, va) = &&-true _ (field_valid 0 59 a) h₄ in
    rw fields (
      five_fire a b c d e month day (field_valid-Denotes 0 59 a (omega arith) va)
        (field_valid-Denotes 0 23 b (omega arith) vb) (field_valid-Denotes 1 31 c (omega arith) vc)
        (field_valid-Denotes 1 12 d (omega arith) vd) (field_valid-Denotes 0 6 e (omega arith) ve)
        on_day in_month there)

-- Some day and month, which exist in a leap year, match the fields.
abbrev pub SomeDay : String → String → Type 0
SomeDay c d =
    (month : ℕ) × (day : ℕ) × (field_matches day c 1 31 ≡ true)
    × (field_matches month d 1 12 ≡ true)
    × (day ≤ days_in_month 2000 month)

real_day : (t : LocalTime) → t.day ≤ days_in_month 2000 t.month
real_day t =
    let within : is_time t.year t.month t.day t.hour t.minute ≡ true
        → t.day ≤ days_in_month t.year t.month =
      λ real. unfold is_time in ground (arith, real) in
    omega (arith, within t.exists, days_in_month-most t.year t.month)

firing_day :
    (t : LocalTime) (a b c d e : String)
    → cron_fields_match t (a ∷ b ∷ c ∷ d ∷ e ∷ []) ≡ some true
    → SomeDay c d
unfolding cron_fields_match
firing_day t a b c d e h = (t.month, t.day, ground arith, ground arith, real_day t)

-- An accepted schedule has a local time at which it fires just when some day and month that exist in
-- a leap year match its third and its fourth field.
pub fires_iff :
    (split : String → List String) (is_zone : String → Bool) (cron timezone a b c d e : String)
    → schedule_valid split is_zone cron timezone ≡ true
    → split cron ≡ a ∷ b ∷ c ∷ d ∷ e ∷ []
    → ((t : LocalTime) × (cron_matches split t cron ≡ some true)) ↔ SomeDay c d
unfolding cron_matches
fires_iff split is_zone cron timezone a b c d e valid fields = (
  (λ (t, due). firing_day t a b c d e (rw fields at due)),
  λ (month, day, on_day, in_month, there).
      let (t, month_is, day_is, due) =
        schedule_fires split is_zone cron timezone a b c d e month day valid fields on_day in_month
          there in
      (t, due),
)
