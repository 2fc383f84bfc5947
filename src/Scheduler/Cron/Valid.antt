-- ===== src/Scheduler/Cron/Valid.antt =====
-- The fields that validate_schedule accepts, under _field_matches.
use Prim.Native.Nat.{◌-◌, ◌%◌}
use Prim.Native.String.{String}
use agenstfer_agi.Base.{
  ℕ, suc, ◌≤◌, ◌<◌, ◌≡◌, refl, sym, ap, ◌∙◌, Bool, true, false, ◌||◌, some, List, [], ◌∷◌, nat_beq,
  arith, Bool-cases, inl, inr, all, &&-true, ||-true,
}
use native.Mathlib.Nat.{mod-eq_of_lt}
use agenstfer_agi.Base.Split.{split_on}
use agenstfer_agi.Scheduler.Cron.{
  any_part, or_false, part_results, field_matches, part_valid, field_valid,
}
use agenstfer_agi.Scheduler.Cron.Parts.{covers, Within, Reads, part_valid-Reads, split_on-cons}
use agenstfer_agi.Scheduler.Cron.Text.{Reach, every, exactly, between}

-- The parts of a field, each read.
abbrev pub AllRead : ℕ → ℕ → List String → Type 0
AllRead minimum maximum [] = Unit
AllRead minimum maximum (part ∷ parts) = Reads minimum maximum part × AllRead minimum maximum parts

-- Some part covers the value.
abbrev pub any_covers :
    (minimum maximum : ℕ) (parts : List String) → AllRead minimum maximum parts → ℕ → Bool
any_covers minimum maximum [] tt value = false
any_covers minimum maximum (part ∷ parts) (r, rs) value =
    covers minimum maximum r.reach (suc r.step) value || any_covers minimum maximum parts rs value

all-AllRead :
    (minimum maximum : ℕ) (parts : List String)
    → minimum ≤ maximum
    → all (part_valid minimum maximum) parts ≡ true
    → AllRead minimum maximum parts
all-AllRead minimum maximum [] bounds h = tt
all-AllRead minimum maximum (part ∷ parts) bounds h =
    let (first, rest) =
      &&-true (part_valid minimum maximum part) (all (part_valid minimum maximum) parts) h in
    (
      part_valid-Reads minimum maximum part bounds first,
      all-AllRead minimum maximum parts bounds rest,
    )

any_part-AllRead :
    (minimum maximum : ℕ) (parts : List String) (rs : AllRead minimum maximum parts) (value : ℕ)
    → any_part (part_results value minimum maximum parts)
      ≡ some (any_covers minimum maximum parts rs value)
unfolding any_part part_results
any_part-AllRead minimum maximum [] tt value = refl
any_part-AllRead minimum maximum (part ∷ parts) (r, rs) value =
    elim (Bool-cases (covers minimum maximum r.reach (suc r.step) value)) [
      | inl e ↦ rw (r.meaning value, e) refl
      | inr e ↦ rw (r.meaning value, e) (any_part-AllRead minimum maximum parts rs value)
    ]

-- The first value of a reach.
abbrev start_of : ℕ → Reach → ℕ
start_of minimum every = minimum
start_of minimum (exactly n) = n
start_of minimum (between a b) = a

mod-self_minus : (n k : ℕ) → nat_beq ((n - n) % suc k) 0 ≡ true
mod-self_minus n k =
    let e : n - n ≡ 0 = omega arith in
    let low : 0 < suc k = omega arith in rw (e, mod-eq_of_lt low) refl

covers-start :
    (minimum maximum step : ℕ) (reach : Reach)
    → Within minimum maximum reach
    → covers minimum maximum reach (suc step) (start_of minimum reach) ≡ true
covers-start minimum maximum step every h = ground (arith, mod-self_minus minimum step)
covers-start minimum maximum step (exactly n) h = ground arith
covers-start minimum maximum step (between a b) h = ground (arith, mod-self_minus a step)

start-bounds :
    (minimum maximum : ℕ) (reach : Reach)
    → Within minimum maximum reach
    → (minimum ≤ start_of minimum reach) × (start_of minimum reach ≤ maximum)
start-bounds minimum maximum every h = (omega arith, h)
start-bounds minimum maximum (exactly n) h = h
start-bounds minimum maximum (between a b) h = (h.0, omega arith)

covers-bounds :
    (minimum maximum step value : ℕ) (reach : Reach)
    → Within minimum maximum reach
    → covers minimum maximum reach (suc step) value ≡ true
    → (minimum ≤ value) × (value ≤ maximum)
covers-bounds minimum maximum step value every h c = (ground arith, ground arith)
covers-bounds minimum maximum step value (exactly n) h c = (ground arith, ground arith)
covers-bounds minimum maximum step value (between a b) h c = (ground arith, ground arith)

any_covers-bounds :
    (minimum maximum : ℕ) (parts : List String) (rs : AllRead minimum maximum parts) (value : ℕ)
    → any_covers minimum maximum parts rs value ≡ true
    → (minimum ≤ value) × (value ≤ maximum)
any_covers-bounds minimum maximum [] tt value h = cc
any_covers-bounds minimum maximum (part ∷ parts) (r, rs) value h =
    elim (||-true (covers minimum maximum r.reach (suc r.step) value)
      (any_covers minimum maximum parts rs value) h) [
        | inl c ↦ covers-bounds minimum maximum r.step value r.reach r.within c
        | inr c ↦ any_covers-bounds minimum maximum parts rs value c
      ]

-- A field as a set of values: the union of what its parts cover, within the bounds, and not empty.
pub record Denotes (minimum maximum : ℕ) (expression : String) : Type 0 where
  pub parts : AllRead minimum maximum (split_on b',' expression)
  pub matches :
      (value : ℕ)
      → field_matches value expression minimum maximum
        ≡ any_covers minimum maximum (split_on b',' expression) parts value
  pub bounded_by :
      (value : ℕ)
      → field_matches value expression minimum maximum ≡ true
      → (minimum ≤ value) × (value ≤ maximum)
  pub first : ℕ
  pub fires : field_matches first expression minimum maximum ≡ true

first_covered :
    (minimum maximum : ℕ) (parts : List String) (rs : AllRead minimum maximum parts)
    → (w : String) (ws : List String) → parts ≡ w ∷ ws
    → (v : ℕ) × (any_covers minimum maximum parts rs v ≡ true)
first_covered minimum maximum [] tt w ws e = cc
first_covered minimum maximum (part ∷ parts) (r, rs) w ws e =
    (start_of minimum r.reach, rw (covers-start minimum maximum r.step r.reach r.within) refl)

-- A field that validate_schedule accepts is read without an exception: _field_matches accepts
-- exactly the values that its parts cover, all of them within the bounds, and at least one.
pub field_valid-Denotes :
    (minimum maximum : ℕ) (expression : String)
    → minimum ≤ maximum
    → field_valid minimum maximum expression ≡ true
    → Denotes minimum maximum expression
unfolding field_valid field_matches
field_valid-Denotes minimum maximum expression bounds h =
    let words = split_on b',' expression in
    let rs = all-AllRead minimum maximum words bounds h in
    let (w, ws, some_word) = split_on-cons b',' expression in
    let (v, covered) = first_covered minimum maximum words rs w ws some_word in
    let exact : (value : ℕ)
        → field_matches value expression minimum maximum
          ≡ any_covers minimum maximum words rs value =
      λ value. ap or_false (any_part-AllRead minimum maximum words rs value) in
    record {
      parts = rs;
      matches = exact;
      bounded_by =
          λ value m. any_covers-bounds minimum maximum words rs value (sym (exact value) ∙ m);
      first = v;
      fires = exact v ∙ covered;
    }
