-- ===== src/Policy.antt =====
-- The data policy of agents/runtime.py: the classification of what a model would read, and what may
-- go to a cloud model. The two queries' results are arguments.
pub mod Cloud
pub mod Profiles
mod Samples
use agenstfer_agi.Base.{
  ℕ, String, Bool, true, false, ◌&&◌, ◌||◌, not, Option, none, some, List, [], ◌∷◌, ◌++◌, ◌==◌,
  if◌then◌else◌, ltb, all, Result, ok, err,
}
use agenstfer_agi.Base.Dict.{Dict, get}

pub data PolicyError : Type 0 where
  value_error permission_error : PolicyError

abbrev pub data_classification_order : Dict ℕ
data_classification_order =
    ("public", 0) ∷ ("internal", 1) ∷ ("confidential", 2) ∷ ("restricted", 3) ∷ []

unfoldable pub rank : String → Option ℕ
unfolding get
rank c = get c data_classification_order

abbrev place : Option ℕ → ℕ
place none = 0
place (some n) = n

unfoldable pub level : String → ℕ
unfolding rank
level c = place (rank c)

unfoldable pub is_known : String → Bool
unfolding rank
is_known c = elim (rank c) [ none ↦ false | some n ↦ true ]

-- `max` of the set: the one of the highest place.
unfoldable pub highest : String → List String → String
unfolding level
highest best [] = best
highest best (c ∷ cs) = highest (if ltb (level best) (level c) then c else best) cs

unfoldable pub highest_or_internal : List String → String
unfolding highest
highest_or_internal [] = "internal"
highest_or_internal (c ∷ cs) = highest c cs

unfoldable pub classify_model_data_scope : List String → List String → Result PolicyError String
unfolding highest_or_internal is_known
classify_model_data_scope evidence entities =
    if all is_known (evidence ++ entities)
    then ok (highest_or_internal (evidence ++ entities))
    else err value_error

unfoldable pub is_protected : String → Bool
is_protected c = c == "confidential" || c == "restricted"

unfoldable pub enforce_cloud_data_policy : String → Bool → Result PolicyError (Unit {0})
unfolding is_known is_protected
enforce_cloud_data_policy classification cloud =
    if not (is_known classification)
    then err value_error
    else if cloud && is_protected classification
    then err permission_error
    else ok tt
