-- ===== src/Workflow/Default.antt =====
-- workflow/default.py: the built-in growth diagnostic. The ids of its edges are
-- `e-<source>-<target>`; positions are left out, as in the model of a node.
pub mod Valid
mod Samples
use agenstfer_agi.Base.{
  ℕ, String, Bool, true, false, Option, none, some, List, [], ◌∷◌, map, ◌==◌, if◌then◌else◌,
}
use Prim.Native.String.{◌++◌}
use agenstfer_agi.Base.Dict.{Dict}
use agenstfer_agi.Json.{Json, str, num, pos}
use agenstfer_agi.Workflow.Models.{
  NodeKind, manual_trigger, data_source_sync, normalize_context, okf_compile, knowledge_search,
  agent_run, deterministic_score, approval, report_output, WorkflowNode, WorkflowEdge,
  WorkflowDefinition,
}

abbrev row : String → NodeKind → String → Dict Json → String → WorkflowNode
row node_id kind label config output_type = record {
  id = node_id;
  kind = kind;
  label = label;
  config = config;
  output_type = some output_type;
}

abbrev agent : String → ℕ → String → String → Dict Json
agent agent_id agent_version profile output_type =
    ("agent_id", str agent_id)
    ∷ ("agent_version", num (pos agent_version) 0)
    ∷ ("model_profile", str profile)
    ∷ ("output_type", str output_type)
    ∷ []

unfoldable pub default_nodes : String → List WorkflowNode
default_nodes profile =
    row "trigger" manual_trigger "Manual Trigger" [] "control"
    ∷ row "sync" data_source_sync "Data Source Sync" (("connector_id", str "demo-company") ∷ [])
        "raw_records"
    ∷ row "normalize" normalize_context "Normalize Context" [] "context"
    ∷ row "compile" okf_compile "OKF Compile" [] "knowledge"
    ∷ row "search" knowledge_search "Knowledge Search"
        (("query", str "company context and growth evidence") ∷ []) "evidence"
    ∷ row "company_agent" agent_run "Company Analyst"
        (agent "company-analyst" 5 profile "CompanyAnalysis") "agent_result"
    ∷ row "growth_agent" agent_run "Growth Opportunity Analyst"
        (agent "growth-opportunity-analyst" 4 profile "OpportunityHypotheses") "hypotheses"
    ∷ row "score" deterministic_score "Deterministic Score" [] "scored_opportunities"
    ∷ row "review" agent_run "Evidence Reviewer"
        (agent "evidence-reviewer" 3 profile "EvidenceReview") "agent_result"
    ∷ row "curator" agent_run "Wiki Curator" (agent "wiki-curator" 3 profile "OKFChangeSet")
        "agent_result"
    ∷ row "approval" approval "Approval"
        (("role", str "approver") ∷ ("timeout_days", num (pos 7) 0) ∷ []) "approved"
    ∷ row "report" report_output "Report Output" (("format", str "okf+html") ∷ []) "artifact"
    ∷ []

abbrev edge_row : String → String → String → WorkflowEdge
edge_row source target data_type = record {
  id = "e-" ++ source ++ "-" ++ target;
  source = source;
  target = target;
  data_type = data_type;
  branch = none;
}

unfoldable pub default_edges : List WorkflowEdge
default_edges =
    edge_row "trigger" "sync" "control"
    ∷ edge_row "sync" "normalize" "raw_records"
    ∷ edge_row "normalize" "compile" "context"
    ∷ edge_row "compile" "search" "knowledge"
    ∷ edge_row "search" "company_agent" "evidence"
    ∷ edge_row "company_agent" "growth_agent" "agent_result"
    ∷ edge_row "growth_agent" "score" "hypotheses"
    ∷ edge_row "score" "review" "scored_opportunities"
    ∷ edge_row "review" "curator" "agent_result"
    ∷ edge_row "curator" "report" "agent_result"
    ∷ edge_row "report" "approval" "artifact"
    ∷ []

-- `model_profile or "local-balanced"`
unfoldable pub chosen_profile : Option String → String
chosen_profile none = "local-balanced"
chosen_profile (some p) = if p == "" then "local-balanced" else p

unfoldable pub build_default_workflow : Option String → WorkflowDefinition
unfolding chosen_profile default_nodes default_edges
build_default_workflow model_profile = record {
  id = "builtin-growth-diagnostic";
  name = "Growth Diagnostic";
  version = 3;
  status = "draft";
  nodes = default_nodes (chosen_profile model_profile);
  edges = default_edges;
}
