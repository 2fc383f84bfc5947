-- ===== src/Workflow/Default/Valid.antt =====
-- The built-in workflow under the validator.
use agenstfer_agi.Base.{
  String, ◌≡◌, refl, Bool, true, false, Option, none, some, [], ◌∷◌, ok, ◌==◌, Bool-cases, inl, inr,
}
use agenstfer_agi.Base.Dict.{put, get, keys}
use agenstfer_agi.Base.Sort.{sorted}
use agenstfer_agi.Workflow.Models.{WorkflowValidation}
use agenstfer_agi.Workflow.Validator.{reach_issues, outputs, approvals, validate_workflow}
use agenstfer_agi.Workflow.Validator.Checks.{approval_issues}
use agenstfer_agi.Workflow.Validator.Graph.{walk, successors, release, degree, kahn}
use agenstfer_agi.Workflow.Validator.Links.{zero_degrees, scan_edges, node_table}
use agenstfer_agi.Workflow.Default.{build_default_workflow, chosen_profile}

abbrev pub run_order : WorkflowValidation
run_order = record {
  valid = true;
  issues = [];
  topological_order =
      "trigger" ∷ "sync" ∷ "normalize" ∷ "compile" ∷ "search" ∷ "company_agent" ∷ "growth_agent"
      ∷ "score" ∷ "review" ∷ "curator" ∷ "report" ∷ "approval" ∷ [];
}

-- No choice of a profile leaves the configuration of an agent blank.
chosen_profile-not_empty : (profile : Option String) → (chosen_profile profile == "") ≡ false
unfolding chosen_profile
chosen_profile-not_empty none = refl
chosen_profile-not_empty (some p) = elim (Bool-cases (p == "")) [
  | inl e ↦ rw e refl
  | inr e ↦ rw e e
]

-- The built-in workflow is valid and runs in the order of its stages, whatever the model profile.
pub default_valid :
    (isalnum : String → Bool) (profile : Option String)
    → validate_workflow isalnum (build_default_workflow profile) ≡ ok run_order
unfolding build_default_workflow validate_workflow kahn sorted scan_edges get node_table put
    zero_degrees degree keys release successors reach_issues walk approval_issues approvals outputs
default_valid isalnum profile = rw (chosen_profile-not_empty profile) (refl {a = ok run_order})
