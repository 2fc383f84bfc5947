-- ===== src/Workflow/Validator/Samples.antt =====
-- Small workflows that run through the validator.
use agenstfer_agi.Workflow.Validator.Checks.{
  approval_issues, key_error, out_of_fuel, all_node_issues,
}
use agenstfer_agi.Workflow.Validator.Graph.{walk, successors, release, degree, kahn}
use agenstfer_agi.Workflow.Validator.{
  reach_issues, triggers, outputs, approvals, scan, find_order, validate_workflow,
}
use agenstfer_agi.Workflow.Validator.Links.{zero_degrees, scan_edges, node_table}
use agenstfer_agi.Base.Dict.{put, get, Dict, keys}
use agenstfer_agi.Base.Sort.{sorted}
use agenstfer_agi.Base.{
  arith, String, ◌≡◌, refl, Bool, true, false, none, some, [], ◌∷◌, ok, err, All, length, ◌≢◌, ◌↔◌,
  is_empty,
}
use agenstfer_agi.Base.Sets.{elem}
use agenstfer_agi.Json.{Json, str, num, pos}
use agenstfer_agi.Workflow.Models.{
  NodeKind, manual_trigger, policy_check, report_output, approval, WorkflowNode, WorkflowEdge,
  WorkflowDefinition, WorkflowValidation,
}
use agenstfer_agi.Workflow.Validator.Order.{table_of, links_of}
use agenstfer_agi.Workflow.Validator.Walk.{Reaches, here, along}
use agenstfer_agi.Workflow.Validator.Tables.{links, accepted}
use agenstfer_agi.Workflow.Validator.Position.{Precedes}
use agenstfer_agi.Workflow.Validator.Fits.{Fits, node_ids}
use agenstfer_agi.Workflow.Validator.Valid.{IsOrdered, valid_order, valid_edges}
use agenstfer_agi.Workflow.Validator.Cycles.{IsAcyclic, IsAcyclic-iff}
use agenstfer_agi.Workflow.Validator.Gate.{valid_reached, valid_approval}
use agenstfer_agi.Workflow.Validator.Edges.{is_edge}
use agenstfer_agi.Workflow.Validator.Raises.{validate_workflow_ends, cycle_raises}

abbrev ascii : String → Bool
ascii s = true

abbrev node : String → NodeKind → Dict Json → WorkflowNode
node i k c = record { id = i; kind = k; label = i; config = c; output_type = none }

abbrev edge : String → String → String → WorkflowEdge
edge s t d = record { id = s; source = s; target = t; data_type = d; branch = none }

abbrev start_node : WorkflowNode
start_node = node "start" manual_trigger []

abbrev policy_node : WorkflowNode
policy_node = node "policy" policy_check (("policy_id", str "material-claim-evidence") ∷ [])

abbrev report_node : WorkflowNode
report_node = node "report" report_output (("format", str "okf") ∷ [])

abbrev approval_node : WorkflowNode
approval_node =
    node "approval" approval (("role", str "approver") ∷ ("timeout_days", num (pos 7) 0) ∷ [])

abbrev sample : WorkflowDefinition
sample = record {
  id = "sample";
  name = "Sample";
  version = 1;
  status = "draft";
  nodes = approval_node ∷ report_node ∷ start_node ∷ [];
  edges = edge "start" "report" "control" ∷ edge "report" "approval" "artifact" ∷ [];
}

-- The report and the policy check wait for each other.
abbrev looped : WorkflowDefinition
looped = record sample {
  nodes = start_node ∷ policy_node ∷ report_node ∷ approval_node ∷ [];
  edges =
      edge "start" "policy" "control"
      ∷ edge "policy" "report" "control"
      ∷ edge "report" "policy" "control"
      ∷ edge "report" "approval" "artifact"
      ∷ [];
}

abbrev sample_result : WorkflowValidation
sample_result = record {
  valid = true;
  issues = [];
  topological_order = "start" ∷ "report" ∷ "approval" ∷ [];
}

sample_valid : validate_workflow ascii sample ≡ ok sample_result
unfolding validate_workflow kahn sorted scan_edges get node_table put zero_degrees degree keys
    release successors reach_issues walk approval_issues approvals outputs
sample_valid = refl

valid_order_example : IsOrdered sample ("start" ∷ "report" ∷ "approval" ∷ [])
valid_order_example = valid_order ascii sample sample_result sample_valid refl

valid_edges_example : All (Fits (node_table sample.nodes)) sample.edges
valid_edges_example = valid_edges ascii sample sample_result sample_valid refl

valid_reached_example :
    (t : WorkflowNode) × (triggers sample ≡ t ∷ [])
    × ((x : String) → elem x (node_ids sample) ≡ true → Reaches (links_of sample) t.id x)
valid_reached_example = valid_reached ascii sample sample_result sample_valid refl

valid_approval_example :
    (a : WorkflowNode) × (approvals sample ≡ a ∷ [])
    × (is_empty (outputs sample) ≡ false)
    × All
        (λ (o : WorkflowNode). Precedes sample_result.topological_order o.id a.id)
        (outputs sample)
valid_approval_example = valid_approval ascii sample sample_result sample_valid refl

looped_order : find_order looped (scan looped) ≡ some ("start" ∷ [])
unfolding find_order scan kahn sorted scan_edges get node_table put zero_degrees degree keys release
    successors
looped_order = refl

IsAcyclic-iff_example : (1 ≡ length (keys (table_of looped))) ↔ IsAcyclic looped
IsAcyclic-iff_example = IsAcyclic-iff looped ("start" ∷ []) looped_order

validate_workflow_ends_example : validate_workflow ascii looped ≢ err out_of_fuel
validate_workflow_ends_example = validate_workflow_ends ascii looped

looped_nodes : all_node_issues ascii looped.nodes ≡ ok []
unfolding all_node_issues sorted get
looped_nodes = refl

looped_start : (s : String) → is_edge s "start" (links_of looped) ≡ false
unfolding is_edge links accepted node_table get put
looped_start s = ground arith

-- The report is on the cycle, and the approval is behind it.
cycle_raises_example : validate_workflow ascii looped ≡ err key_error
unfolding is_edge links accepted node_table get put elem keys
cycle_raises_example =
    cycle_raises ascii looped [] approval_node "report" "policy" "start" refl (along here refl)
      (along here refl) refl looped_start (unfold approvals in refl) (unfold outputs in refl)
      looped_nodes
