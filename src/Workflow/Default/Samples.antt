-- ===== src/Workflow/Default/Samples.antt =====
-- The built-in workflow with the profile of the settings left out.
use agenstfer_agi.Base.{String, ◌≡◌, Bool, true, none, ok}
use agenstfer_agi.Workflow.Validator.{validate_workflow}
use agenstfer_agi.Workflow.Default.{build_default_workflow}
use agenstfer_agi.Workflow.Default.Valid.{run_order, default_valid}

abbrev ascii : String → Bool
ascii s = true

default_valid_example : validate_workflow ascii (build_default_workflow none) ≡ ok run_order
default_valid_example = default_valid ascii none
