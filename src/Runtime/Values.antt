-- ===== src/Runtime/Values.antt =====
-- Python's operations on JSON values: objects, equality and truth. A float is `num m k` with k
-- above 0, and compares with an int as a number.
use agenstfer_agi.Base.{
  ℕ, zero, suc, ◌+◌, ◌*◌, String, Bool, true, false, ◌&&◌, not, Option, none, some, ◌==◌, nat_beq,
  ltb, if◌then◌else◌,
}
use Prim.Native.Nat.{◌^◌}
use agenstfer_agi.Json.{
  Json, Items, Fields, ℤ, pos, negsuc, null, bool, num, str, arr, obj, nil, cons, end, field,
}

unfoldable pub lookup : String → Fields → Option Json
lookup key end = none
lookup key (field k v rest) = if k == key then some v else lookup key rest

unfoldable pub insert : String → Json → Fields → Fields
insert key v end = field key v end
insert key v (field k w rest) = if k == key then field key v rest else field k w (insert key v rest)

abbrev pub count_items : Items → ℕ
count_items nil = 0
count_items (cons j js) = suc (count_items js)

abbrev pub count_fields : Fields → ℕ
count_fields end = 0
count_fields (field k v rest) = suc (count_fields rest)

-- `m * d`, for a scale d that is not 0.
unfoldable pub scale : ℤ → ℕ → ℤ
scale (pos n) d = pos (n * d)
scale (negsuc n) zero = pos 0
scale (negsuc n) (suc d) = negsuc (n * suc d + d)

unfoldable pub int_eq : ℤ → ℤ → Bool
int_eq (pos a) (pos b) = nat_beq a b
int_eq (negsuc a) (negsuc b) = nat_beq a b
int_eq _ _ = false

unfoldable pub int_lt : ℤ → ℤ → Bool
int_lt (pos a) (pos b) = ltb a b
int_lt (pos a) (negsuc b) = false
int_lt (negsuc a) (pos b) = true
int_lt (negsuc a) (negsuc b) = ltb b a

-- A number as a numerator over a power of 2; `True` is 1.
unfoldable pub number_of : Json → Option (ℤ × ℕ)
number_of (num m k) = some (m, k)
number_of (bool b) = some (if b then pos 1 else pos 0, 0)
number_of _ = none

unfoldable pub num_eq : ℤ × ℕ → ℤ × ℕ → Bool
unfolding scale int_eq
num_eq (m, k) (n, l) = int_eq (scale m (2 ^ l)) (scale n (2 ^ k))

unfoldable pub num_lt : ℤ × ℕ → ℤ × ℕ → Bool
unfolding scale int_lt
num_lt (m, k) (n, l) = int_lt (scale m (2 ^ l)) (scale n (2 ^ k))

unfoldable pub number_eq : ℤ × ℕ → Option (ℤ × ℕ) → Bool
unfolding num_eq
number_eq a none = false
number_eq a (some b) = num_eq a b

-- `==`: numbers as numbers, lists in order, dictionaries without order.
unfoldable mutual
  unfolding lookup number_of number_eq

  pub py_eq : Json → Json → Bool
  py_eq null b = elim b [ null ↦ true | _ ↦ false ]
  py_eq (bool x) b = number_eq (if x then pos 1 else pos 0, 0) (number_of b)
  py_eq (num m k) b = number_eq (m, k) (number_of b)
  py_eq (str s) b = elim b [ str t ↦ s == t | _ ↦ false ]
  py_eq (arr js) b = elim b [ arr ks ↦ items_eq js ks | _ ↦ false ]
  py_eq (obj fs) b = elim b [
    | obj gs ↦ nat_beq (count_fields fs) (count_fields gs) && fields_in fs gs
    | _ ↦ false
  ]

  pub items_eq : Items → Items → Bool
  items_eq nil ks = elim ks [ nil ↦ true | _ ↦ false ]
  items_eq (cons j js) ks = elim ks [ nil ↦ false | cons k rest ↦ py_eq j k && items_eq js rest ]

  pub fields_in : Fields → Fields → Bool
  fields_in end gs = true
  fields_in (field k v rest) gs =
      (elim (lookup k gs) [ none ↦ false | some w ↦ py_eq v w ]) && fields_in rest gs

unfoldable pub truth : Json → Bool
truth null = false
truth (bool b) = b
truth (num (pos zero) k) = false
truth (num _ k) = true
truth (str s) = not (s == "")
truth (arr nil) = false
truth (arr _) = true
truth (obj end) = false
truth (obj _) = true
