-- ===== src/Runtime/Conditions.antt =====
-- _resolve_field and evaluate_condition of workflow/persistent_runtime.py. `str` of a value that is
-- no text is a parameter.
use agenstfer_agi.Base.{
  ℕ, String, Bool, true, false, ◌||◌, not, Option, none, some, List, [], ◌∷◌, ◌==◌, if◌then◌else◌,
  Result, ok, err, ◌>>=◌,
}
use agenstfer_agi.Base.Dict.{Dict, get}
use agenstfer_agi.Base.Split.{split_on, contains}
use agenstfer_agi.Json.{Json, Items, Fields, ℤ, null, str, arr, obj, nil, cons}
use agenstfer_agi.Runtime.Values.{lookup, py_eq, number_of, num_lt}

-- The exceptions that the execution of a node ends in.
pub data Failure : Type 0 where
  value_error key_error type_error permission_error runtime_error : Failure

unfoldable pub resolve_parts : Json → List String → Json
unfolding lookup
resolve_parts value [] = value
resolve_parts (obj fields) (part ∷ parts) = elim (lookup part fields) [
  | none ↦ null
  | some v ↦ resolve_parts v parts
]
resolve_parts _ (part ∷ parts) = null

-- The state is a dictionary itself.
unfoldable pub resolve_in : Dict Json → List String → Json
unfolding get resolve_parts
resolve_in state [] = null
resolve_in state (part ∷ parts) = elim (get part state) [
  | none ↦ null
  | some v ↦ resolve_parts v parts
]

unfoldable pub resolve_field : Dict Json → String → Json
unfolding resolve_in split_on
resolve_field state field = resolve_in state (split_on b'.' field)

unfoldable pub item_in : Json → Items → Bool
unfolding py_eq
item_in j nil = false
item_in j (cons k ks) = py_eq j k || item_in j ks

unfoldable pub key_in : Json → Fields → Result Failure Bool
unfolding lookup
key_in (str key) fields = ok (elim (lookup key fields) [ none ↦ false | some v ↦ true ])
key_in (arr items) fields = err type_error
key_in (obj gs) fields = err type_error
key_in _ fields = ok false

-- `right in left if isinstance(left, (str, list, dict)) else False`
unfoldable pub contained : Json → Json → Result Failure Bool
unfolding contains item_in key_in
contained (str s) (str part) = ok (contains part s)
contained (str s) _ = err type_error
contained (arr items) right = ok (item_in right items)
contained (obj fields) right = key_in right fields
contained _ right = ok false

-- The dictionary of the four comparisons, at the operator.
unfoldable pub compare_numbers : String → ℤ × ℕ → ℤ × ℕ → Result Failure Bool
unfolding num_lt
compare_numbers operator a b =
    if operator == "gt"
    then ok (num_lt b a)
    else if operator == "gte"
    then ok (not (num_lt a b))
    else if operator == "lt"
    then ok (num_lt a b)
    else if operator == "lte"
    then ok (not (num_lt b a))
    else err key_error

unfoldable pub compare_ordered : String → Option (ℤ × ℕ) → Option (ℤ × ℕ) → Result Failure Bool
unfolding compare_numbers
compare_ordered operator (some a) (some b) = compare_numbers operator a b
compare_ordered operator _ _ = ok false

unfoldable pub condition_holds : String → Json → Json → Result Failure Bool
unfolding py_eq contained compare_ordered number_of
condition_holds operator left right =
    if operator == "eq"
    then ok (py_eq left right)
    else if operator == "ne"
    then ok (not (py_eq left right))
    else if operator == "contains"
    then contained left right
    else compare_ordered operator (number_of left) (number_of right)

-- `config[key]`
unfoldable pub required : String → Dict Json → Result Failure Json
unfolding get
required key config = elim (get key config) [ none ↦ err key_error | some v ↦ ok v ]

unfoldable pub unordered : Failure → Option (ℤ × ℕ) → Option (ℤ × ℕ) → Result Failure Bool
unordered e (some a) (some b) = err e
unordered e _ _ = ok false

-- An operator that is no text equals none of the names, and orders nothing.
unfoldable pub apply_operator : Json → Json → Json → Result Failure Bool
unfolding condition_holds unordered number_of
apply_operator (str operator) left right = condition_holds operator left right
apply_operator (arr items) left right = unordered type_error (number_of left) (number_of right)
apply_operator (obj fields) left right = unordered type_error (number_of left) (number_of right)
apply_operator _ left right = unordered key_error (number_of left) (number_of right)

unfoldable pub text_or : (Json → String) → Json → String
text_or py_str (str s) = s
text_or py_str j = py_str j

unfoldable pub evaluate_condition : (Json → String) → Dict Json → Dict Json → Result Failure Bool
unfolding required apply_operator text_or resolve_field
evaluate_condition py_str state config = required "field" config >>= λ field.
    required "value" config >>= λ right. required "operator" config >>= λ operator.
    apply_operator operator (resolve_field state (text_or py_str field)) right
