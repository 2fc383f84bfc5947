-- ===== src/Scheduler/Cron/Text.antt =====
-- What the parts of a cron field are written as.
use Prim.Native.Char.{Char, code}
use Prim.Native.String.{String}
use agenstfer_agi.Base.{
  ℕ, suc, ◌≡◌, refl, true, false, some, ◌==◌, nat_beq, arith, Bool-cases, inl, inr, ||-false,
  eq_iff,
}
use agenstfer_agi.Json.{pos}
use agenstfer_agi.Scheduler.Cron.{partition, has_char, int_of, step_of}

-- The values that a part means: all of the field's, one, or those from one to another.
pub data Reach : Type 0 where
  every : Reach
  exactly : ℕ → Reach
  between : ℕ → ℕ → Reach

-- The text before the first character of the code, and the text behind it.
pub data Splits (sep : ℕ) : String → String → String → Type 0 where
  here : {x : Char} {s : String} → code x ≡ sep → Splits sep (String.◌∷◌ x s) "" s
  there :
      {x : Char} {s before after : String}
      → nat_beq (code x) sep ≡ false
      → Splits sep s before after
      → Splits sep (String.◌∷◌ x s) (String.◌∷◌ x before) after

-- What a base is written as: `*`, a number, or two numbers with a dash.
pub data IsBase : String → Reach → Type 0 where
  any_value : IsBase "*" every
  number : {s : String} {n : ℕ} → int_of s ≡ some (pos n) → IsBase s (exactly n)
  range :
      {s first last : String} {a b : ℕ}
      → Splits b'-' s first last
      → int_of first ≡ some (pos a)
      → int_of last ≡ some (pos b)
      → IsBase s (between a b)

-- What a part with a step is written as: a base alone or before a slash, for the step 1, or a base,
-- a slash and the step.
pub data IsPart : String → Reach → ℕ → Type 0 where
  plain : {part : String} {reach : Reach} → IsBase part reach → IsPart part reach 1
  trailing :
      {part base : String} {reach : Reach}
      → Splits b'/' part base ""
      → IsBase base reach
      → IsPart part reach 1
  with_step :
      {part base step_text : String} {reach : Reach} {n : ℕ}
      → Splits b'/' part base step_text
      → IsBase base reach
      → int_of step_text ≡ some (pos (suc n))
      → IsPart part reach (suc n)

pub partition-Splits :
    (c : ℕ) (s : String) → has_char c s ≡ true → Splits c s (partition c s).0 (partition c s).1
unfolding has_char partition
partition-Splits c String.[] h = cc
partition-Splits c (String.◌∷◌ x s) h = elim (Bool-cases (nat_beq (code x) c)) [
  | inl e ↦ rw e (here (ground arith))
  | inr e ↦ rw e (there e (partition-Splits c s (rw e at h)))
]

partition-whole : (c : ℕ) (s : String) → has_char c s ≡ false → partition c s ≡ (s, "")
unfolding has_char partition
partition-whole c String.[] h = refl
partition-whole c (String.◌∷◌ x s) h =
    let (p, q) = ||-false (nat_beq (code x) c) (has_char c s) h in
    rw (p, partition-whole c s q) refl

one_step :
    (n : ℕ) (part : String) (reach : Reach)
    → IsPart part reach 1
    → some (pos 1) ≡ some (pos (suc n))
    → IsPart part reach (suc n)
one_step n part reach p h = let n_is : 0 ≡ n = cc in rw (← n_is) p

split-IsPart :
    (part base step_text : String) (reach : Reach) (n : ℕ)
    → Splits b'/' part base step_text
    → IsBase base reach
    → step_of step_text ≡ some (pos (suc n))
    → IsPart part reach (suc n)
unfolding step_of
split-IsPart part base step_text reach n s b h = elim (Bool-cases (step_text == "")) [
  | inl e ↦
      let empty : step_text ≡ "" = ground (arith, eq_iff step_text "") in
      one_step n part reach (trailing (rw empty at s) b) (rw e at h)
  | inr e ↦ with_step s b (rw e at h)
]

pub part-IsPart :
    (part : String) (reach : Reach) (n : ℕ)
    → IsBase (partition b'/' part).0 reach
    → step_of (partition b'/' part).1 ≡ some (pos (suc n))
    → IsPart part reach (suc n)
unfolding step_of
part-IsPart part reach n b h = elim (Bool-cases (has_char b'/' part)) [
  | inl e ↦ split-IsPart part _ _ reach n (partition-Splits b'/' part e) b h
  | inr e ↦
      let whole = partition-whole b'/' part e in
      one_step n part reach (plain (rw whole at b)) (rw whole at h)
]

pub star-IsBase : (s : String) → (s == "*") ≡ true → IsBase s every
star-IsBase s e = let s_is : s ≡ "*" = ground (arith, eq_iff s "*") in rw s_is any_value
