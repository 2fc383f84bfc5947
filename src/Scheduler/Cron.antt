-- ===== src/Scheduler/Cron.antt =====
-- _field_matches and cron_matches of workflow/scheduler.py, and validate_schedule of
-- workflow/registry_service.py. Texts are over the characters of a cron expression, where `int`
-- reads digits with at most one sign. `str.split` at blanks, the conversion to a time zone and the
-- test for a known zone are parameters.
pub mod Text
pub mod Parts
pub mod Valid
pub mod Fires
use Prim.Native.Nat.{◌+◌, ◌-◌, ◌*◌, ◌%◌}
use Prim.Native.Char.{code}
use Prim.Native.String.{String}
use agenstfer_agi.Base.{
  ℕ, zero, suc, Bool, true, false, ◌&&◌, ◌||◌, not, Option, none, some, List, [], ◌∷◌, ◌==◌,
  nat_beq, ltb, leb, if◌then◌else◌, Result, ok, err, all, is_empty, length,
}
use agenstfer_agi.Base.Split.{split_on}
use agenstfer_agi.Scheduler.Clock.{LocalTime, local_weekday}
use agenstfer_agi.Json.{ℤ, pos, negsuc}

abbrev is_digit : ℕ → Bool
is_digit c = leb b'0' c && leb c b'9'

-- Digits behind the number that is read so far.
unfoldable pub digits_from : ℕ → String → Option ℕ
digits_from n String.[] = some n
digits_from n (String.◌∷◌ c s) =
    let rest = digits_from (n * 10 + (code c - b'0')) s in if is_digit (code c) then rest else none

unfoldable pub natural : String → Option ℕ
unfolding digits_from
natural String.[] = none
natural (String.◌∷◌ c s) = digits_from 0 (String.◌∷◌ c s)

unfoldable pub negated : Option ℕ → Option ℤ
negated none = none
negated (some zero) = some (pos 0)
negated (some (suc n)) = some (negsuc n)

abbrev pub positive : Option ℕ → Option ℤ
positive none = none
positive (some n) = some (pos n)

-- `int(text)`; none is a ValueError.
unfoldable pub int_of : String → Option ℤ
unfolding natural negated
int_of String.[] = none
int_of (String.◌∷◌ c s) =
    if nat_beq (code c) b'-' then negated (natural s) else positive (natural (String.◌∷◌ c s))

-- `text.partition(separator)`, without the separator.
unfoldable pub partition : ℕ → String → String × String
partition sep String.[] = ("", "")
partition sep (String.◌∷◌ c s) =
    let (before, after) = partition sep s in
    if nat_beq (code c) sep then ("", s) else (String.◌∷◌ c before, after)

unfoldable pub has_char : ℕ → String → Bool
has_char c String.[] = false
has_char c (String.◌∷◌ x s) = nat_beq (code x) c || has_char c s

-- `int(step_text) if step_text else 1`
unfoldable pub step_of : String → Option ℤ
unfolding int_of
step_of step_text = if step_text == "" then some (pos 1) else int_of step_text

-- `minimum <= start <= value <= end <= maximum and (value - start) % step == 0`
unfoldable pub in_range : ℕ → ℕ → ℕ → ℕ → ℤ → ℤ → Bool
in_range value minimum maximum step (pos start) (pos end_) =
    leb minimum start
    && leb start value
    && leb value end_
    && leb end_ maximum
    && nat_beq ((value - start) % step) 0
in_range value minimum maximum step _ _ = false

unfoldable pub range_matches : ℕ → ℕ → ℕ → ℕ → Option ℤ → Option ℤ → Option Bool
unfolding in_range
range_matches value minimum maximum step (some start) (some end_) =
    some (in_range value minimum maximum step start end_)
range_matches value minimum maximum step _ _ = none

abbrev pub is_value : ℕ → ℤ → Bool
is_value value (pos n) = nat_beq value n
is_value value (negsuc n) = false

unfoldable pub single_matches : ℕ → Option ℤ → Option Bool
single_matches value none = none
single_matches value (some n) = some (is_value value n)

-- A part's base, with a step of at least 1.
unfoldable pub base_matches : ℕ → String → ℕ → ℕ → ℕ → Option Bool
unfolding range_matches single_matches int_of partition has_char
base_matches value base minimum maximum step =
    if base == "*"
    then some (in_range value minimum maximum step (pos minimum) (pos maximum))
    else if has_char b'-' base
    then (let (start, end_) = partition b'-' base in
        range_matches value minimum maximum step (int_of start) (int_of end_))
    else single_matches value (int_of base)

unfoldable pub stepped_matches : ℕ → String → ℕ → ℕ → Option ℤ → Option Bool
unfolding base_matches
stepped_matches value base minimum maximum none = none
stepped_matches value base minimum maximum (some (pos zero)) = some false
stepped_matches value base minimum maximum (some (negsuc n)) = some false
stepped_matches value base minimum maximum (some (pos (suc n))) =
    base_matches value base minimum maximum (suc n)

-- `matches_part`; none is a ValueError.
unfoldable pub matches_part : ℕ → ℕ → ℕ → String → Option Bool
unfolding stepped_matches step_of partition
matches_part value minimum maximum part =
    let (base, step_text) = partition b'/' part in
    stepped_matches value base minimum maximum (step_of step_text)

-- `any(...)` over the parts, up to the first match or the first exception.
unfoldable pub any_part : List (Option Bool) → Option Bool
any_part [] = some false
any_part (none ∷ rest) = none
any_part (some true ∷ rest) = some true
any_part (some false ∷ rest) = any_part rest

unfoldable pub part_results : ℕ → ℕ → ℕ → List String → List (Option Bool)
unfolding matches_part
part_results value minimum maximum [] = []
part_results value minimum maximum (part ∷ parts) =
    matches_part value minimum maximum part ∷ part_results value minimum maximum parts

abbrev pub or_false : Option Bool → Bool
or_false none = false
or_false (some b) = b

unfoldable pub field_matches : ℕ → String → ℕ → ℕ → Bool
unfolding any_part part_results split_on
field_matches value expression minimum maximum =
    or_false (any_part (part_results value minimum maximum (split_on b',' expression)))

-- The fields of an expression; none is the ValueError of an unpacking that does not fit.
unfoldable pub cron_fields_match : LocalTime → List String → Option Bool
unfolding field_matches local_weekday
cron_fields_match t (minute ∷ hour ∷ day ∷ month ∷ weekday ∷ []) = some (
    field_matches t.minute minute 0 59
    && field_matches t.hour hour 0 23
    && field_matches t.day day 1 31
    && field_matches t.month month 1 12
    && field_matches ((local_weekday t + 1) % 7) weekday 0 6)
cron_fields_match t _ = none

abbrev is_cron_char : ℕ → Bool
is_cron_char c = is_digit c || nat_beq c b'*' || nat_beq c b'/' || nat_beq c b',' || nat_beq c b'-'

unfoldable pub all_cron_chars : String → Bool
all_cron_chars String.[] = true
all_cron_chars (String.◌∷◌ c s) = is_cron_char (code c) && all_cron_chars s

-- `CRON_PART.fullmatch(field)`
unfoldable pub is_cron_part : String → Bool
unfolding all_cron_chars
is_cron_part s = not (s == "") && all_cron_chars s

unfoldable pub cons_int : Option ℤ → Option (List ℤ) → Option (List ℤ)
cons_int none ns = none
cons_int (some n) none = none
cons_int (some n) (some ns) = some (n ∷ ns)

-- `[int(item) for item in base.split("-")]`
unfoldable pub all_ints : List String → Option (List ℤ)
unfolding int_of cons_int
all_ints [] = some []
all_ints (s ∷ ss) = cons_int (int_of s) (all_ints ss)

unfoldable pub bounded : ℕ → ℕ → ℤ → Bool
bounded minimum maximum (pos n) = leb minimum n && leb n maximum
bounded minimum maximum (negsuc n) = false

unfoldable pub values_valid : ℕ → ℕ → Option (List ℤ) → Bool
unfolding bounded
values_valid minimum maximum (some (a ∷ [])) = bounded minimum maximum a
values_valid minimum maximum (some (pos a ∷ pos b ∷ [])) =
    bounded minimum maximum (pos a) && bounded minimum maximum (pos b) && leb a b
values_valid minimum maximum _ = false

abbrev pub at_least_one : Option ℤ → Bool
at_least_one (some (pos (suc n))) = true
at_least_one _ = false

-- A part of a field raises nothing in validate_schedule.
unfoldable pub part_valid : ℕ → ℕ → String → Bool
unfolding step_of all_ints values_valid partition split_on
part_valid minimum maximum part =
    let (base, step_text) = partition b'/' part in
    at_least_one (step_of step_text)
    && (base == "*" || values_valid minimum maximum (all_ints (split_on b'-' base)))

unfoldable pub field_valid : ℕ → ℕ → String → Bool
unfolding part_valid split_on
field_valid minimum maximum expression = all (part_valid minimum maximum) (split_on b',' expression)

unfoldable pub fields_valid : List String → Bool
unfolding is_cron_part field_valid
fields_valid (minute ∷ hour ∷ day ∷ month ∷ weekday ∷ []) =
    all is_cron_part (minute ∷ hour ∷ day ∷ month ∷ weekday ∷ [])
    && field_valid 0 59 minute
    && field_valid 0 23 hour
    && field_valid 1 31 day
    && field_valid 1 12 month
    && field_valid 0 6 weekday
fields_valid _ = false

module _ (split : String → List String) where
  unfoldable pub cron_matches : LocalTime → String → Option Bool
  unfolding cron_fields_match
  cron_matches t cron = cron_fields_match t (split cron)

  -- validate_schedule raises nothing.
  unfoldable pub schedule_valid : (String → Bool) → String → String → Bool
  unfolding fields_valid
  schedule_valid is_zone cron timezone = fields_valid (split cron) && is_zone timezone
