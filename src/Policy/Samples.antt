-- ===== src/Policy/Samples.antt =====
-- A scope with one confidential item.
use agenstfer_agi.Base.{String, ◌≡◌, refl, ◌↔◌, true, List, [], ◌∷◌, ◌++◌, any, ok, err}
use agenstfer_agi.Base.Dict.{get}
use agenstfer_agi.Policy.{
  permission_error, highest, level, is_known, is_protected, classify_model_data_scope,
  enforce_cloud_data_policy,
}
use agenstfer_agi.Policy.Cloud.{cloud_refused_iff}

abbrev evidence : List String
evidence = "public" ∷ "confidential" ∷ []

abbrev entities : List String
entities = "internal" ∷ []

scope_run : classify_model_data_scope evidence entities ≡ ok "confidential"
unfolding classify_model_data_scope highest level is_known get
scope_run = refl

cloud_refused_iff_example :
    (enforce_cloud_data_policy "confidential" true ≡ err permission_error)
    ↔ (any is_protected (evidence ++ entities) ≡ true)
cloud_refused_iff_example = cloud_refused_iff evidence entities "confidential" scope_run
