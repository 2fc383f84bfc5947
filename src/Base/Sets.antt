-- ===== src/Base/Sets.antt =====
-- Membership of texts in lists, and counting arguments on lists without repetition.
use Prim.Native.Nat.{ℕ, suc, ◌≤◌, ◌<◌}
use Prim.Native.String.{String}
use mathlib.Core.Path.{◌≡◌, refl, ◌∙◌}
use mathlib.Core.Bool.{Bool, true, false, ◌||◌}
use mathlib.Core.Logic.{inl, inr}
use mathlib.Core.List.{List, [], ◌∷◌, ◌++◌}
use native.Mathlib.Omega.{arith}
use agenstfer_agi.Base.Tests.{if◌then◌else◌, Bool-cases}
use agenstfer_agi.Base.Lists.{length}
use agenstfer_agi.Base.Texts.{◌==◌, eq_iff, eq_refl}

-- `x in xs`.
unfoldable pub elem : String → List String → Bool
elem x [] = false
elem x (y ∷ ys) = y == x || elem x ys

-- How often `x` stands in `xs`.
unfoldable pub count : String → List String → ℕ
count x [] = 0
count x (y ∷ ys) = let rest = count x ys in if y == x then suc rest else rest

-- No text stands twice.
abbrev pub Distinct : List String → Type 0
Distinct [] = Unit
Distinct (x ∷ xs) = (elem x xs ≡ false) × Distinct xs

-- Every member of `xs` is a member of `ys`.
abbrev pub Subset : List String → List String → Type 0
Subset xs ys = (x : String) → elem x xs ≡ true → elem x ys ≡ true

-- `dict.fromkeys` and `set`: the members in the order of their first occurrence, in front of which
-- `seen` stands.
unfoldable pub add_new : List String → List String → List String
add_new seen [] = seen
add_new seen (x ∷ xs) = add_new (if elem x seen then seen else seen ++ x ∷ []) xs

unfoldable pub unique : List String → List String
unfolding add_new
unique xs = add_new [] xs

pub elem-append : (x : String) (xs ys : List String) → elem x (xs ++ ys) ≡ (elem x xs || elem x ys)
unfolding elem
elem-append x [] ys = refl
elem-append x (y ∷ xs) ys = ground (arith, elem-append x xs ys)

pub elem-head : (x : String) (xs : List String) → elem x (x ∷ xs) ≡ true
unfolding elem
elem-head x xs = ground (arith, eq_refl x)

pub elem-snoc : (x y : String) (xs : List String) → elem x (xs ++ y ∷ []) ≡ (elem x xs || y == x)
unfolding elem
elem-snoc x y [] = ground arith
elem-snoc x y (z ∷ xs) = ground (arith, elem-snoc x y xs)

remove : String → List String → List String
remove x [] = []
remove x (y ∷ ys) = let rest = remove x ys in if y == x then ys else y ∷ rest

length-remove :
    (x : String) (ys : List String) → elem x ys ≡ true → length ys ≡ suc (length (remove x ys))
unfolding elem remove
length-remove x [] h = ground arith
length-remove x (y ∷ ys) h = ground (arith, length-remove x ys)

elem-remove :
    (x z : String) (ys : List String)
    → (x == z) ≡ false
    → elem z ys ≡ true
    → elem z (remove x ys) ≡ true
unfolding elem remove
elem-remove x z [] d h = ground arith
elem-remove x z (y ∷ ys) d h =
    ground (arith, elem-remove x z ys, eq_iff y x, eq_iff x z, eq_iff y z)

ne_of_elem :
    (x z : String) (xs : List String) → elem x xs ≡ false → elem z xs ≡ true → (x == z) ≡ false
unfolding elem
ne_of_elem x z [] h k = ground arith
ne_of_elem x z (y ∷ xs) h k = ground (arith, ne_of_elem x z xs, eq_iff y x, eq_iff x z, eq_iff y z)

pub elem-tail : (z y : String) (ys : List String) → elem z ys ≡ true → elem z (y ∷ ys) ≡ true
unfolding elem
elem-tail z y ys h = ground arith

-- A list without repetition is no longer than a list that holds all its members.
pub length-le-Subset : (xs ys : List String) → Distinct xs → Subset xs ys → length xs ≤ length ys
length-le-Subset [] ys d s = omega arith
length-le-Subset (x ∷ xs) ys d s = omega (
  arith,
  length-remove x ys (s x (elem-head x xs)),
  length-le-Subset xs (remove x ys) d.1
      (λ z h. elem-remove x z ys (ne_of_elem x z xs d.0 h) (s z (elem-tail z x xs h))),
)

tail_of :
    (z w : String) (xs : List String) → (z == w) ≡ false → elem w (z ∷ xs) ≡ true → elem w xs ≡ true
unfolding elem
tail_of z w xs e h = ground arith

-- If it is as long, it holds them all.
pub Subset-of_length :
    (xs ys : List String) → Distinct xs → Subset xs ys → length ys ≤ length xs → Subset ys xs
Subset-of_length xs ys d s h z m = elim (Bool-cases (elem z xs)) [
  | inl e ↦ e
  | inr e ↦ absurd (omega (arith, length-le-Subset (z ∷ xs) ys (e, d) (grow z m)))
]
  where
    grow : (z : String) → elem z ys ≡ true → Subset (z ∷ xs) ys
    grow z m w h = elim (Bool-cases (z == w)) [
      | inl e ↦ ground (arith, eq_iff z w)
      | inr e ↦ s w (tail_of z w xs e h)
    ]

pub Distinct-snoc :
    (x : String) (xs : List String) → Distinct xs → elem x xs ≡ false → Distinct (xs ++ x ∷ [])
unfolding elem
Distinct-snoc x [] d h = (refl, tt)
Distinct-snoc x (y ∷ xs) d h = (
  ground (arith, elem-snoc y x xs, eq_iff x y, eq_iff y x),
  Distinct-snoc x xs d.1 (ground arith),
)

pub elem-of_count : (x : String) (xs : List String) → 0 < count x xs → elem x xs ≡ true
unfolding elem count
elem-of_count x [] h = absurd (omega arith)
elem-of_count x (y ∷ xs) h = ground (arith, elem-of_count x xs)

pub count-of_elem : (x : String) (xs : List String) → elem x xs ≡ true → 0 < count x xs
unfolding elem count
count-of_elem x [] h = cc
count-of_elem x (y ∷ xs) h = ground (arith, count-of_elem x xs)

pub Subset-snoc :
    (xs ys : List String) (x : String) → Subset xs ys → elem x ys ≡ true → Subset (xs ++ x ∷ []) ys
Subset-snoc xs ys x s h z m = ground (arith, elem-snoc z x xs, s z, eq_iff x z)

pub not-elem_of_Distinct :
    (x : String) (xs ys : List String) → Distinct (xs ++ x ∷ ys) → elem x xs ≡ false
unfolding elem
not-elem_of_Distinct x [] ys d = refl
not-elem_of_Distinct x (y ∷ xs) ys d =
    ground
      (arith, not-elem_of_Distinct x xs ys d.1, elem-append y xs (x ∷ ys), eq_iff x y, eq_iff y x)

pub add_new-append :
    (seen xs ys : List String) → add_new seen (xs ++ ys) ≡ add_new (add_new seen xs) ys
unfolding add_new
add_new-append seen [] ys = refl
add_new-append seen (x ∷ xs) ys =
    add_new-append (if elem x seen then seen else seen ++ x ∷ []) xs ys

elem-grown :
    (z x : String) (seen xs : List String)
    → (elem z (if elem x seen then seen else seen ++ x ∷ []) || elem z xs)
      ≡ (elem z seen || elem z (x ∷ xs))
unfolding elem
elem-grown z x seen xs = ground (arith, elem-snoc z x seen, eq_iff x z)

pub elem-add_new :
    (z : String) (seen xs : List String) → elem z (add_new seen xs) ≡ (elem z seen || elem z xs)
unfolding add_new elem
elem-add_new z seen [] = ground arith
elem-add_new z seen (x ∷ xs) =
    elem-add_new z (if elem x seen then seen else seen ++ x ∷ []) xs ∙ elem-grown z x seen xs

pub Distinct-add_new : (seen xs : List String) → Distinct seen → Distinct (add_new seen xs)
unfolding add_new
Distinct-add_new seen [] d = d
Distinct-add_new seen (x ∷ xs) d = elim (Bool-cases (elem x seen)) [
  | inl e ↦ rw e (Distinct-add_new seen xs d)
  | inr e ↦ rw e (Distinct-add_new (seen ++ x ∷ []) xs (Distinct-snoc x seen d e))
]

pub elem-unique : (z : String) (xs : List String) → elem z (unique xs) ≡ elem z xs
unfolding unique elem
elem-unique z xs = elem-add_new z [] xs

pub Distinct-unique : (xs : List String) → Distinct (unique xs)
unfolding unique
Distinct-unique xs = Distinct-add_new [] xs tt
