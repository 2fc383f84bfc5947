-- ===== src/Runtime/Nodes.antt =====
-- _execute_node of workflow/persistent_runtime.py. What it calls for files, metrics and models is a
-- record of parameters: the sync of the demo company, the metrics with their scores, the agent that
-- is run on a profile, and the report with its candidate.
pub mod Local
mod Samples
use agenstfer_agi.Base.{
  ℕ, String, ◌≡◌, ◌≢◌, refl, ap, Bool, true, false, ◌&&◌, ◌||◌, not, Option, none, some, List, [],
  ◌∷◌, ◌==◌, if◌then◌else◌, Result, ok, err, ◌>>=◌, starts_with, Bool-cases, inl, inr,
}
use agenstfer_agi.Base.Dict.{Dict, get, put}
use agenstfer_agi.Base.Sets.{elem}
use agenstfer_agi.Json.{Json, bool, str, obj, field, end}
use agenstfer_agi.Workflow.Models.{
  NodeKind, manual_trigger, onboarding_trigger, schedule_trigger, data_source_sync,
  normalize_context, okf_compile, knowledge_search, agent_run, deterministic_score, condition,
  policy_check, approval, report_output, WorkflowNode,
}
use agenstfer_agi.Registry.Rows.{AgentDefinitionRow, row_at}
use agenstfer_agi.Policy.Profiles.{Settings}
use agenstfer_agi.Policy.{PolicyError, enforce_cloud_data_policy}
use agenstfer_agi.Policy.Profiles.{
  ModelProfile, resolve_model_profile, local_profiles, cloud_off_stays_local,
}
use agenstfer_agi.Runtime.Values.{insert, truth}
use agenstfer_agi.Runtime.Conditions.{
  Failure, value_error, type_error, runtime_error, required, text_or, evaluate_condition,
}
use agenstfer_agi.Runtime.Start.{published_agent, failure_of, requested_profile}

pub record NodeServices : Type 0 where
  pub registered_sources : List String
  pub sync_demo_company : Result Failure Json
  pub metrics : Result Failure (Json × Json)
  pub run_agent : AgentDefinitionRow → ModelProfile → WorkflowNode → Dict Json → Result Failure Json
  pub write_report : List String → Dict Json → Result Failure (List String × Dict Json)

-- `result.setdefault(key, {})[id] = value`
unfoldable pub set_under :
    String → String → Json → Dict Json → Option Json → Result Failure (Dict Json)
unfolding put insert
set_under key id value state none = ok (put key (obj (field id value end)) state)
set_under key id value state (some (obj fields)) = ok (put key (obj (insert id value fields)) state)
set_under key id value state (some _) = err type_error

unfoldable pub setdefault_at : String → String → Json → Dict Json → Result Failure (Dict Json)
unfolding set_under get
setdefault_at key id value state = set_under key id value state (get key state)

unfoldable pub of_policy : {A : Type 0} → Result PolicyError A → Result Failure A
unfolding failure_of
of_policy (ok a) = ok a
of_policy (err e) = err (failure_of e)

unfoldable pub pinned_agent :
    String → Option ℕ → List AgentDefinitionRow → Result Failure AgentDefinitionRow
unfolding published_agent row_at
pinned_agent id none agents = err value_error
pinned_agent id (some version) agents = published_agent (row_at id version agents)

-- `run.model_profile or settings.model_profile or spec.model_profile`
unfoldable pub default_profile : String → String → String → String
default_profile of_run of_settings of_spec =
    if not (of_run == "") then of_run else if not (of_settings == "") then of_settings else of_spec

module _ (py_str : Json → String) (services : NodeServices) where
  unfoldable pub sync_source : WorkflowNode → Dict Json → Result Failure (Dict Json)
  unfolding requested_profile get put elem
  sync_source node state =
      let connector_id = requested_profile py_str (get "connector_id" node.config) "demo-company" in
      if not (connector_id == "demo-company")
        && not (elem connector_id services.registered_sources)
        && not (starts_with connector_id "src-")
      then err value_error
      else (services.sync_demo_company >>= λ summary. ok (put "source_sync" summary state))

  -- `node.config["policy_id"] != "material-claim-evidence"`
  unfoldable pub check_policy : WorkflowNode → Json → Dict Json → Result Failure (Dict Json)
  unfolding setdefault_at
  check_policy node (str policy_id) state =
      if policy_id == "material-claim-evidence"
      then setdefault_at "policy_checks" node.id (str "passed") state
      else err value_error
  check_policy node _ state = err value_error

  module _ (settings : Settings) (model_profile : String) (agents : List AgentDefinitionRow)
      (scope : Result PolicyError String) (agent_versions : Dict ℕ) (run_profile : String) where
    unfoldable pub run_agent_node : WorkflowNode → Dict Json → Result Failure (Dict Json)
    unfolding required text_or pinned_agent requested_profile default_profile of_policy
        resolve_model_profile enforce_cloud_data_policy setdefault_at get
    run_agent_node node state = do
      configured ← required "agent_id" node.config
      let agent_id = text_or py_str configured
      agent ← pinned_agent agent_id (get agent_id agent_versions) agents
      let fallback = default_profile run_profile model_profile agent.definition.model_profile
      let requested = requested_profile py_str (get "model_profile" node.config) fallback
      profile ← of_policy (resolve_model_profile requested settings)
      classification ← of_policy scope
      allowed ← of_policy (enforce_cloud_data_policy classification (not profile.local))
      output ← services.run_agent agent profile node state
      setdefault_at "agent_results" agent_id output state

    unfoldable pub execute_kind :
        NodeKind → WorkflowNode → List String → Dict Json → Result Failure (List String × Dict Json)
    unfolding sync_source check_policy run_agent_node required evaluate_condition setdefault_at put
    execute_kind manual_trigger node candidates state =
        ok (candidates, put "triggered_by" (str "manual_trigger") state)
    execute_kind onboarding_trigger node candidates state =
        ok (candidates, put "triggered_by" (str "onboarding_trigger") state)
    execute_kind schedule_trigger node candidates state =
        ok (candidates, put "triggered_by" (str "schedule_trigger") state)
    execute_kind data_source_sync node candidates state =
        sync_source node state >>= λ state'. ok (candidates, state')
    execute_kind normalize_context node candidates state =
        ok (candidates, put "context_status" (str "persisted-canonical-context") state)
    execute_kind okf_compile node candidates state =
        ok (candidates, put "knowledge_status" (str "active-read-candidate-write") state)
    execute_kind knowledge_search node candidates state =
        required "query" node.config >>= λ query. ok (candidates, put "knowledge_query" query state)
    execute_kind deterministic_score node candidates state =
        services.metrics >>= λ m. ok (candidates, put "scores" m.1 (put "metrics" m.0 state))
    execute_kind condition node candidates state =
        evaluate_condition py_str state node.config >>= λ holds.
        setdefault_at "conditions" node.id (bool holds) state >>= λ state'. ok (candidates, state')
    execute_kind policy_check node candidates state =
        required "policy_id" node.config >>= λ policy_id.
        check_policy node policy_id state >>= λ state'. ok (candidates, state')
    execute_kind agent_run node candidates state =
        run_agent_node node state >>= λ state'. ok (candidates, state')
    execute_kind report_output node candidates state = services.write_report candidates state
    execute_kind approval node candidates state = err runtime_error

    unfoldable pub execute_node :
        WorkflowNode → List String → Dict Json → Result Failure (List String × Dict Json)
    unfolding execute_kind put
    execute_node node candidates state = execute_kind node.kind node candidates state >>= λ done.
        ok (done.0, put "last_step" (str node.id) done.1)
