-- ===== src/Scheduler/Cron/Parts.antt =====
-- What the parts of a cron field stand for.
use Prim.Native.Nat.{◌-◌, ◌%◌}
use Prim.Native.Char.{code}
use Prim.Native.String.{String}
use agenstfer_agi.Base.{
  ℕ, zero, suc, ◌≤◌, ◌≡◌, refl, sym, ◌∙◌, Bool, true, false, ◌&&◌, ◌||◌, Option, none, some, List,
  [], ◌∷◌, ◌==◌, nat_beq, leb, arith, Bool-cases, inl, inr, ||-false, &&-true, false≢true,
}
use agenstfer_agi.Base.Split.{split_on, cons_first}
use agenstfer_agi.Json.{ℤ, pos, negsuc}
use agenstfer_agi.Scheduler.Cron.Text.{
  Reach, every, exactly, between, IsBase, number, range, IsPart, partition-Splits, part-IsPart,
  star-IsBase,
}
use agenstfer_agi.Scheduler.Cron.{
  partition, has_char, int_of, cons_int, all_ints, bounded, values_valid, step_of, in_range,
  base_matches, stepped_matches, matches_part, part_valid, single_matches, range_matches,
  at_least_one,
}

-- A step counts from the first value, and does not count for a single value.
abbrev pub covers : ℕ → ℕ → Reach → ℕ → ℕ → Bool
covers minimum maximum every step value =
    leb minimum value && leb value maximum && nat_beq ((value - minimum) % step) 0
covers minimum maximum (exactly n) step value = nat_beq value n
covers minimum maximum (between a b) step value =
    leb a value && leb value b && nat_beq ((value - a) % step) 0

abbrev pub Within : ℕ → ℕ → Reach → Type 0
Within minimum maximum every = minimum ≤ maximum
Within minimum maximum (exactly n) = (minimum ≤ n) × (n ≤ maximum)
Within minimum maximum (between a b) = (minimum ≤ a) × (a ≤ b) × (b ≤ maximum)

-- A part that is read: the reach and the step, of at least 1, that it is written as, within the
-- bounds.
pub record Reads (minimum maximum : ℕ) (part : String) : Type 0 where
  pub reach : Reach
  pub step : ℕ
  pub text : IsPart part reach (suc step)
  pub within : Within minimum maximum reach
  pub meaning :
      (value : ℕ)
      → matches_part value minimum maximum part
        ≡ some (covers minimum maximum reach (suc step) value)

split_on-single : (c : ℕ) (s : String) → has_char c s ≡ false → split_on c s ≡ s ∷ []
unfolding split_on has_char cons_first
split_on-single c String.[] h = refl
split_on-single c (String.◌∷◌ x s) h =
    let (p, q) = ||-false (nat_beq (code x) c) (has_char c s) h in
    rw (p, split_on-single c s q) refl

split_on-partition :
    (c : ℕ) (s : String)
    → has_char c s ≡ true
    → split_on c s ≡ (partition c s).0 ∷ split_on c (partition c s).1
unfolding split_on has_char partition cons_first
split_on-partition c String.[] h = cc
split_on-partition c (String.◌∷◌ x s) h = elim (Bool-cases (nat_beq (code x) c)) [
  | inl e ↦ rw e refl
  | inr e ↦ rw (e, split_on-partition c s (rw e at h)) refl
]

pub split_on-cons :
    (c : ℕ) (s : String) → (w : String) × (ws : List String) × (split_on c s ≡ w ∷ ws)
unfolding split_on
split_on-cons c String.[] = ("", [], refl)
split_on-cons c (String.◌∷◌ x s) = elim (Bool-cases (nat_beq (code x) c)) [
  | inl e ↦ ("", split_on c s, rw e refl)
  | inr e ↦ let (w, ws, p) = split_on-cons c s in (String.◌∷◌ x w, ws, rw (e, p, cons_first) refl)
]

three_values :
    (minimum maximum : ℕ) (a b c : Option ℤ) (ns : Option (List ℤ))
    → values_valid minimum maximum (cons_int a (cons_int b (cons_int c ns))) ≡ false
unfolding values_valid cons_int
three_values minimum maximum none b c ns = refl
three_values minimum maximum (some a) none c ns = refl
three_values minimum maximum (some a) (some b) none ns = refl
three_values minimum maximum (some a) (some b) (some c) none = refl
three_values minimum maximum (some (negsuc a)) (some b) (some c) (some ns) = refl
three_values minimum maximum (some (pos a)) (some (negsuc b)) (some c) (some ns) = refl
three_values minimum maximum (some (pos a)) (some (pos b)) (some c) (some ns) = refl

one_value :
    (minimum maximum : ℕ) (o : Option ℤ)
    → values_valid minimum maximum (cons_int o (some [])) ≡ true
    → (n : ℕ) × (o ≡ some (pos n)) × (minimum ≤ n) × (n ≤ maximum)
unfolding values_valid cons_int bounded
one_value minimum maximum none h = cc
one_value minimum maximum (some (negsuc n)) h = cc
one_value minimum maximum (some (pos n)) h = (n, refl, ground arith, ground arith)

two_values :
    (minimum maximum : ℕ) (o p : Option ℤ)
    → values_valid minimum maximum (cons_int o (cons_int p (some []))) ≡ true
    → (a : ℕ) × (b : ℕ) × (o ≡ some (pos a))
      × (p ≡ some (pos b))
      × (minimum ≤ a)
      × (a ≤ b)
      × (b ≤ maximum)
unfolding values_valid cons_int bounded
two_values minimum maximum none p h = cc
two_values minimum maximum (some a) none h = elim a [ pos n ↦ cc | negsuc n ↦ cc ]
two_values minimum maximum (some (negsuc a)) (some b) h = cc
two_values minimum maximum (some (pos a)) (some (negsuc b)) h = cc
two_values minimum maximum (some (pos a)) (some (pos b)) h =
    (a, b, refl, refl, ground arith, ground arith, ground arith)

-- A base other than `*` with values in the bounds.
values_read :
    (minimum maximum : ℕ) (base : String)
    → (base == "*") ≡ false
    → values_valid minimum maximum (all_ints (split_on b'-' base)) ≡ true
    → (reach : Reach) × IsBase base reach
      × Within minimum maximum reach
      × ((value step : ℕ)
          → base_matches value base minimum maximum (suc step)
            ≡ some (covers minimum maximum reach (suc step) value))
unfolding base_matches all_ints single_matches range_matches in_range
values_read minimum maximum base star h = elim (Bool-cases (has_char b'-' base)) [
  | inl e ↦
      let x = (partition b'-' base).0 in
      let y = (partition b'-' base).1 in
      elim (Bool-cases (has_char b'-' y)) [
        | inl f ↦
            let (w, ws, p) = split_on-cons b'-' (partition b'-' y).1 in
            let no =
              three_values minimum maximum (int_of x) (int_of (partition b'-' y).0) (int_of w)
                (all_ints ws) in
            absurd (
              false≢true (
                sym no
                ∙ (rw (split_on-partition b'-' base e, split_on-partition b'-' y f, p) at h)))
        | inr f ↦
            let (a, b, p, q, low, mid, high) =
              two_values minimum maximum (int_of x) (int_of y)
                (rw (split_on-partition b'-' base e, split_on-single b'-' y f) at h) in
            (
              between a b,
              range (partition-Splits b'-' base e) p q,
              (low, mid, high),
              λ value step. rw (star, e, p, q) (ground arith),
            )
      ]
  | inr e ↦
      let (n, p, low, high) =
        one_value minimum maximum (int_of base) (rw (split_on-single b'-' base e) at h) in
      (exactly n, number p, (low, high), λ value step. rw (star, e, p) refl)
]

a_step : (o : Option ℤ) → at_least_one o ≡ true → (n : ℕ) × (o ≡ some (pos (suc n)))
a_step none h = cc
a_step (some (negsuc n)) h = cc
a_step (some (pos zero)) h = cc
a_step (some (pos (suc n))) h = (n, refl)

pub part_valid-Reads :
    (minimum maximum : ℕ) (part : String)
    → minimum ≤ maximum
    → part_valid minimum maximum part ≡ true
    → Reads minimum maximum part
unfolding part_valid matches_part stepped_matches base_matches in_range
part_valid-Reads minimum maximum part bounds h =
    let base = (partition b'/' part).0 in
    let (stepped, valued) =
      &&-true (at_least_one (step_of (partition b'/' part).1))
        (base == "*" || values_valid minimum maximum (all_ints (split_on b'-' base))) h in
    let (n, step_is) = a_step (step_of (partition b'/' part).1) stepped in
    elim (Bool-cases (base == "*")) [
      | inl e ↦ record {
        reach = every;
        step = n;
        text = part-IsPart part every n (star-IsBase base e) step_is;
        within = bounds;
        meaning = λ value. rw (step_is, e) (ground arith);
      }
      | inr e ↦
          let (reach, b, fits, means) = values_read minimum maximum base e (rw e at valued) in
          record {
            reach = reach;
            step = n;
            text = part-IsPart part reach n b step_is;
            within = fits;
            meaning = λ value. rw step_is (means value n);
          }
    ]
