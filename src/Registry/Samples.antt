-- ===== src/Registry/Samples.antt =====
-- A small workflow that is published in a registry with one published version.
use agenstfer_agi.Base.{String, ◌≡◌, refl, Bool, true, false, none, some, [], ◌∷◌, ok}
use agenstfer_agi.Base.Dict.{Dict, get, put, keys}
use agenstfer_agi.Base.Sets.{elem}
use agenstfer_agi.Base.Sort.{sorted}
use agenstfer_agi.Json.{Json, str, num, pos}
use agenstfer_agi.Workflow.Models.{
  NodeKind, manual_trigger, report_output, approval, WorkflowNode, WorkflowEdge, WorkflowDefinition,
}
use agenstfer_agi.Workflow.Validator.{validate_workflow, reach_issues, outputs, approvals}
use agenstfer_agi.Workflow.Validator.Checks.{approval_issues}
use agenstfer_agi.Workflow.Validator.Graph.{walk, successors, release, degree, kahn}
use agenstfer_agi.Workflow.Validator.Links.{zero_degrees, scan_edges, node_table}
use agenstfer_agi.Registry.Rows.{
  ManagedAgentSpec, draft, published, WorkflowDefinitionRow, Registry, is_draft, row_at, set_row,
}
use agenstfer_agi.Registry.Bindings.{validate_workflow_bindings}
use agenstfer_agi.Policy.Profiles.{Settings}
use agenstfer_agi.Registry.Drafts.{ensure_platform_registry, clone_workflow_version}
use agenstfer_agi.Registry.Publish.{published_row, publish_workflow, workflow_from_row}
use agenstfer_agi.Registry.Published.{Step, Steps, published_stays}
use agenstfer_agi.Registry.Accepted.{Accepted, publish_accepts}

abbrev node : String → NodeKind → Dict Json → WorkflowNode
node i k c = record { id = i; kind = k; label = i; config = c; output_type = none }

abbrev edge : String → String → String → WorkflowEdge
edge s t d = record { id = s; source = s; target = t; data_type = d; branch = none }

abbrev workflow : WorkflowDefinition
workflow = record {
  id = "sample";
  name = "Sample";
  version = 2;
  status = "draft";
  nodes =
      node "start" manual_trigger []
      ∷ node "report" report_output (("format", str "okf") ∷ [])
      ∷ node "approval" approval (("role", str "approver") ∷ ("timeout_days", num (pos 7) 0) ∷ [])
      ∷ [];
  edges = edge "start" "report" "control" ∷ edge "report" "approval" "artifact" ∷ [];
}

abbrev draft_version : WorkflowDefinitionRow
draft_version = record {
  id = "sample";
  version = 2;
  name = "Sample";
  status = draft;
  definition = workflow;
  created_by = none;
}

abbrev first_version : WorkflowDefinitionRow
first_version = record draft_version {
  version = 1;
  status = published;
  definition = record workflow { version = 1; status = "published" };
}

abbrev db : Registry
db = record { workflows = draft_version ∷ first_version ∷ []; agents = []; capabilities = [] }

abbrev curator : ManagedAgentSpec
curator = record {
  id = "wiki-curator";
  name = "Wiki Curator";
  version = 3;
  output_type = "OKFChangeSet";
  model_profile = "local-balanced";
  capabilities = "wiki.propose_update" ∷ [];
}

abbrev settings : Settings
settings = record { cloud_models_enabled = false; cloud_provider = none; has_cloud_api_key = false }

abbrev py_str : Json → String
py_str j = ""

abbrev ascii : String → Bool
ascii s = true

abbrev cloned : Registry
cloned = (clone_workflow_version first_version none none db).0

published_stays_example : row_at "sample" 1 cloned.workflows ≡ some first_version
unfolding row_at is_draft
published_stays_example =
    published_stays py_str ascii (curator ∷ []) db cloned "sample" 1 first_version
      (Steps.next db cloned cloned (Step.cloning first_version none none db) (Steps.done cloned))
      refl refl

abbrev result : WorkflowDefinitionRow
result = published_row draft_version workflow

abbrev after : Registry
after = (publish_workflow py_str settings ascii (curator ∷ []) none draft_version db).0

publish_run :
    publish_workflow py_str settings ascii (curator ∷ []) none draft_version db ≡ (after, ok result)
unfolding publish_workflow validate_workflow kahn sorted scan_edges get node_table put zero_degrees
    degree keys release successors reach_issues walk approval_issues approvals outputs
    ensure_platform_registry validate_workflow_bindings workflow_from_row set_row row_at elem
publish_run = refl

publish_accepts_example : Accepted py_str settings ascii draft_version result after
unfolding row_at
publish_accepts_example =
    publish_accepts py_str settings ascii (curator ∷ []) none draft_version result db after refl
      publish_run
