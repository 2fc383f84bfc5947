-- ===== src/Base/Lists.antt =====
-- Lists measured by native numbers, Boolean quantifiers and predicates by recursion.
use Prim.Native.Nat.{ℕ, zero, suc, ◌+◌, ◌≤◌}
use mathlib.Core.Path.{◌≡◌}
use mathlib.Core.Bool.{Bool, true, false, ◌&&◌, ◌||◌}
use mathlib.Core.List.{List, [], ◌∷◌, ◌++◌}
use mathlib.Core.Option.{Option, none, some}
use native.Mathlib.Omega.{arith}
use agenstfer_agi.Base.Tests.{if◌then◌else◌}

module _ {ℓ} {A : Type ℓ} where
  abbrev pub length : List A → ℕ
  length [] = 0
  length (x ∷ xs) = suc (length xs)

  abbrev pub take : ℕ → List A → List A
  take zero xs = []
  take (suc n) [] = []
  take (suc n) (x ∷ xs) = x ∷ take n xs

  -- `any(p(x) for x in xs)` and `all(p(x) for x in xs)`.
  abbrev pub any : (A → Bool) → List A → Bool
  any p [] = false
  any p (x ∷ xs) = p x || any p xs

  abbrev pub all : (A → Bool) → List A → Bool
  all p [] = true
  all p (x ∷ xs) = p x && all p xs

  -- `[x for x in xs if p(x)]`.
  abbrev pub select : (A → Bool) → List A → List A
  select p [] = []
  select p (x ∷ xs) = let rest = select p xs in if p x then x ∷ rest else rest

  abbrev pub is_empty : List A → Bool
  is_empty [] = true
  is_empty (x ∷ xs) = false

  abbrev pub head? : List A → Option A
  head? [] = none
  head? (x ∷ xs) = some x

  pub length-append : (xs ys : List A) → length (xs ++ ys) ≡ length xs + length ys
  length-append [] ys = omega arith
  length-append (x ∷ xs) ys = omega (arith, length-append xs ys)

  pub length-take_le : (n : ℕ) (xs : List A) → length (take n xs) ≤ n
  length-take_le zero xs = omega arith
  length-take_le (suc n) [] = omega arith
  length-take_le (suc n) (x ∷ xs) = omega (arith, length-take_le n xs)

-- `P` holds of every element.
abbrev pub All {ℓ κ} : {A : Type ℓ} → (A → Type κ) → List A → Type κ
All P [] = Unit
All P (x ∷ xs) = P x × All P xs

module _ {ℓ κ} {A : Type ℓ} (P : A → Type κ) where
  pub All-append : (xs ys : List A) → All P xs → All P ys → All P (xs ++ ys)
  All-append [] ys hx hy = hy
  All-append (x ∷ xs) ys hx hy = (hx.0, All-append xs ys hx.1 hy)

  pub All-of_append : (xs ys : List A) → All P (xs ++ ys) → All P xs × All P ys
  All-of_append [] ys h = (tt, h)
  All-of_append (x ∷ xs) ys h = let (hx, hy) = All-of_append xs ys h.1 in ((h.0, hx), hy)

pub All-map {ℓ κ ρ} :
    {A : Type ℓ} {P : A → Type κ} {Q : A → Type ρ} (xs : List A)
    → ((a : A) → P a → Q a)
    → All P xs
    → All Q xs
All-map [] f h = tt
All-map (x ∷ xs) f h = (f x h.0, All-map xs f h.1)
