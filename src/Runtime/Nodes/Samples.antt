-- ===== src/Runtime/Nodes/Samples.antt =====
-- An agent's node under settings without cloud models.
use agenstfer_agi.Base.{
  String, ◌≡◌, refl, false, none, [], ◌∷◌, if◌then◌else◌, Result, ok, err, inl, inr, false≢true,
}
use agenstfer_agi.Json.{Json, null, str}
use agenstfer_agi.Workflow.Models.{agent_run, WorkflowNode}
use agenstfer_agi.Registry.Rows.{AgentDefinitionRow, published}
use agenstfer_agi.Policy.Profiles.{Settings}
use agenstfer_agi.Policy.Profiles.{ModelProfile}
use agenstfer_agi.Runtime.Conditions.{Failure, value_error}
use agenstfer_agi.Runtime.Nodes.{NodeServices, run_agent_node}
use agenstfer_agi.Runtime.Nodes.Local.{IsAllowed, agent_within_policy}

abbrev analyst : AgentDefinitionRow
analyst = record {
  id = "company-analyst";
  version = 3;
  name = "Company Analyst";
  status = published;
  definition = record {
    id = "company-analyst";
    name = "Company Analyst";
    version = 3;
    output_type = "CompanyAnalysis";
    model_profile = "local-balanced";
    capabilities = [];
  };
  created_by = none;
}

abbrev node : WorkflowNode
node = record {
  id = "analysis";
  kind = agent_run;
  label = "Analysis";
  config = ("agent_id", str "company-analyst") ∷ ("model_profile", str "local-strong") ∷ [];
  output_type = none;
}

-- The two differ in what a cloud model answers.
abbrev services : Result Failure Json → NodeServices
services from_cloud = record {
  registered_sources = [];
  sync_demo_company = ok null;
  metrics = ok (null, null);
  run_agent = λ agent profile node state. if profile.local then ok (str profile.id) else from_cloud;
  write_report = λ candidates state. ok (candidates, state);
}

abbrev closed : Settings
closed = record { cloud_models_enabled = false; cloud_provider = none; has_cloud_api_key = false }

abbrev text : Json → String
text j = ""

same_answers :
    (profile : ModelProfile)
    → IsAllowed closed (ok "confidential") profile
    → (if profile.local then ok (str profile.id) else err value_error)
      ≡ (if profile.local then ok (str profile.id) else ok null)
same_answers profile (inl l) = rw l refl
same_answers profile (inr (e, known)) = absurd (false≢true e)

agent_within_policy_example :
    run_agent_node text
      (services (err value_error))
      closed
      "local-balanced"
      (analyst ∷ [])
      (ok "confidential")
      (("company-analyst", 3) ∷ [])
      ""
      node
      []
    ≡ run_agent_node text
        (services (ok null))
        closed
        "local-balanced"
        (analyst ∷ [])
        (ok "confidential")
        (("company-analyst", 3) ∷ [])
        ""
        node
        []
agent_within_policy_example =
    agent_within_policy text (services (err value_error)) (services (ok null)) closed
      "local-balanced" (analyst ∷ []) (ok "confidential") (("company-analyst", 3) ∷ []) "" node []
      (λ agent profile allowed. same_answers profile allowed)
