-- ===== src/Base/Sort.antt =====
-- `sorted` on texts, in the order of their code points.
use Prim.Native.String.{compare, String}
use text.Mathlib.Text.{is_le}
use agenstfer_agi.Base.Tests.{if◌then◌else◌, Bool-cases}
use agenstfer_agi.Base.Texts.{◌==◌, eq_iff}
use agenstfer_agi.Base.Sets.{elem, count, Distinct}
use mathlib.Core.Path.{◌≡◌, refl, ◌∙◌}
use mathlib.Core.Bool.{Bool, false, ◌||◌}
use mathlib.Core.Logic.{inl, inr}
use mathlib.Core.List.{List, [], ◌∷◌}
use native.Mathlib.Omega.{arith}

text_le : String → String → Bool
text_le s t = is_le (compare s t)

insert : String → List String → List String
unfolding text_le
insert x [] = x ∷ []
insert x (y ∷ ys) = if text_le x y then x ∷ y ∷ ys else y ∷ insert x ys

unfoldable pub sorted : List String → List String
unfolding insert
sorted [] = []
sorted (x ∷ xs) = insert x (sorted xs)

elem-insert : (z x : String) (ys : List String) → elem z (insert x ys) ≡ (x == z || elem z ys)
unfolding elem insert
elem-insert z x [] = refl
elem-insert z x (y ∷ ys) = ground (arith, elem-insert z x ys)

pub elem-sorted : (z : String) (xs : List String) → elem z (sorted xs) ≡ elem z xs
unfolding elem sorted
elem-sorted z [] = refl
elem-sorted z (x ∷ xs) = elem-insert z x (sorted xs) ∙ ground (arith, elem-sorted z xs)

count-insert : (z x : String) (ys : List String) → count z (insert x ys) ≡ count z (x ∷ ys)
unfolding count insert
count-insert z x [] = refl
count-insert z x (y ∷ ys) = ground (arith, count-insert z x ys)

pub count-sorted : (z : String) (xs : List String) → count z (sorted xs) ≡ count z xs
unfolding count sorted
count-sorted z [] = refl
count-sorted z (x ∷ xs) = count-insert z x (sorted xs) ∙ ground (arith, count-sorted z xs)

Distinct-insert :
    (x : String) (ys : List String) → Distinct ys → elem x ys ≡ false → Distinct (insert x ys)
unfolding elem insert
Distinct-insert x [] d h = (refl, tt)
Distinct-insert x (y ∷ ys) d h = elim (Bool-cases (text_le x y)) [
  | inl e ↦ rw e (h, d)
  | inr e ↦ rw e (
    ground (arith, elem-insert y x ys, eq_iff x y, eq_iff y x),
    Distinct-insert x ys d.1 (ground arith),
  )
]

pub Distinct-sorted : (xs : List String) → Distinct xs → Distinct (sorted xs)
unfolding sorted
Distinct-sorted [] d = tt
Distinct-sorted (x ∷ xs) d =
    Distinct-insert x (sorted xs) (Distinct-sorted xs d.1) (rw elem-sorted d.0)
