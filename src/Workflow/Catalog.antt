-- ===== src/Workflow/Catalog.antt =====
-- workflow/catalog.py: what each kind of node accepts, yields and must configure. The label, the
-- group and the risk are shown to the user only, and are left out.
use agenstfer_agi.Base.{String, List, [], ◌∷◌}
use agenstfer_agi.Workflow.Models.{
  NodeKind, manual_trigger, onboarding_trigger, schedule_trigger, data_source_sync,
  normalize_context, okf_compile, knowledge_search, agent_run, deterministic_score, condition,
  policy_check, approval, report_output,
}

pub record NodeSpec : Type 0 where
  pub accepted_inputs : List String
  pub default_output : String
  pub required_config : List String

abbrev spec : List String → String → List String → NodeSpec
spec inputs output required = record {
  accepted_inputs = inputs;
  default_output = output;
  required_config = required;
}

-- `NODE_CATALOG[kind]`; a frozen set is listed in alphabetic order.
unfoldable pub node_catalog : NodeKind → NodeSpec
node_catalog manual_trigger = spec [] "control" []
node_catalog onboarding_trigger = spec [] "control" []
node_catalog schedule_trigger = spec [] "control" ("cron" ∷ [])
node_catalog data_source_sync = spec ("control" ∷ []) "raw_records" ("connector_id" ∷ [])
node_catalog normalize_context = spec ("raw_records" ∷ []) "context" []
node_catalog okf_compile = spec ("context" ∷ []) "knowledge" []
node_catalog knowledge_search = spec ("context" ∷ "knowledge" ∷ []) "evidence" ("query" ∷ [])
node_catalog agent_run =
    spec
      ("agent_result" ∷ "context" ∷ "evidence" ∷ "hypotheses" ∷ "knowledge" ∷ "scored_opportunities"
        ∷ [])
      "agent_result" ("agent_id" ∷ "model_profile" ∷ [])
node_catalog deterministic_score =
    spec ("agent_result" ∷ "hypotheses" ∷ []) "scored_opportunities" []
node_catalog condition =
    spec ("agent_result" ∷ "control" ∷ "scored_opportunities" ∷ []) "control"
      ("field" ∷ "operator" ∷ "value" ∷ [])
node_catalog policy_check =
    spec ("agent_result" ∷ "control" ∷ "scored_opportunities" ∷ []) "control" ("policy_id" ∷ [])
node_catalog approval =
    spec ("agent_result" ∷ "artifact" ∷ "control" ∷ "scored_opportunities" ∷ []) "approved"
      ("role" ∷ "timeout_days" ∷ [])
node_catalog report_output =
    spec ("agent_result" ∷ "approved" ∷ "control" ∷ "scored_opportunities" ∷ []) "artifact"
      ("format" ∷ [])
