-- ===== src/Registry/Publish.antt =====
-- publish_workflow and workflow_from_row of workflow/registry_service.py.
use agenstfer_agi.Base.{String, Bool, not, Option, List, if◌then◌else◌, Result, ok, err}
use agenstfer_agi.Json.{Json}
use agenstfer_agi.Workflow.Models.{WorkflowDefinition, WorkflowValidation}
use agenstfer_agi.Workflow.Validator.{validate_workflow}
use agenstfer_agi.Workflow.Validator.Checks.{ValidatorError}
use agenstfer_agi.Registry.Rows.{
  ManagedAgentSpec, RowStatus, draft, published, WorkflowDefinitionRow, Registry, is_draft, set_row,
}
use agenstfer_agi.Registry.Bindings.{BindingError, validate_workflow_bindings}
use agenstfer_agi.Policy.Profiles.{Settings}
use agenstfer_agi.Registry.Drafts.{RegistryError, Outcome, ensure_platform_registry}

pub data PublishError : Type 0 where
  no_draft invalid : PublishError
  validation_raised : ValidatorError → PublishError
  seeding_raised : RegistryError → PublishError
  bindings_raised : BindingError → PublishError

abbrev status_text : RowStatus → String
status_text draft = "draft"
status_text published = "published"

unfoldable pub workflow_from_row : WorkflowDefinitionRow → WorkflowDefinition
workflow_from_row row = record row.definition {
  id = row.id;
  version = row.version;
  status = status_text row.status;
}

abbrev pub published_row : WorkflowDefinitionRow → WorkflowDefinition → WorkflowDefinitionRow
published_row row workflow = record row {
  status = published;
  definition = record workflow { status = "published" };
}

abbrev pub PublishOutcome : Type 0
PublishOutcome = Registry × Result PublishError WorkflowDefinitionRow

unfoldable pub store_bound :
    WorkflowDefinitionRow → Registry → Result BindingError WorkflowDefinition → PublishOutcome
unfolding set_row
store_bound row db (err e) = (db, err (bindings_raised e))
store_bound row db (ok w) =
    let row' = published_row row w in (record db { workflows = set_row row' db.workflows }, ok row')

module _ (py_str : Json → String) (settings : Settings) where
  -- From the seeding on.
  unfoldable pub bind_seeded : WorkflowDefinitionRow → Outcome (Unit {0}) → PublishOutcome
  unfolding store_bound validate_workflow_bindings workflow_from_row
  bind_seeded row (db, err e) = (db, err (seeding_raised e))
  bind_seeded row (db, ok u) =
      store_bound row db
        (validate_workflow_bindings py_str settings db.agents (workflow_from_row row))

  module _ (isalnum : String → Bool) (specs : List ManagedAgentSpec) (profile : Option String) where
    -- From the validator's report on.
    unfoldable pub publish_valid :
        WorkflowDefinitionRow → Registry → Result ValidatorError WorkflowValidation → PublishOutcome
    unfolding bind_seeded ensure_platform_registry
    publish_valid row db (err e) = (db, err (validation_raised e))
    publish_valid row db (ok v) =
        if v.valid
        then bind_seeded row (ensure_platform_registry specs profile db)
        else (db, err invalid)

    unfoldable pub publish_workflow : WorkflowDefinitionRow → Registry → PublishOutcome
    unfolding is_draft validate_workflow publish_valid workflow_from_row
    publish_workflow row db =
        if not (is_draft row.status)
        then (db, err no_draft)
        else publish_valid row db (validate_workflow isalnum (workflow_from_row row))
