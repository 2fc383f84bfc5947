-- ===== src/Runtime/Start.antt =====
-- start_persisted_workflow, resume_persisted_workflow up to its loop, and
-- _execute_workflow_in_background of workflow/persistent_runtime.py. The id of a new run, which is
-- drawn at random, is a parameter by the run's key; so are `str` and `int` of JSON values, what a
-- node's work does, langgraph's invocation and the classification of the data in scope.
pub mod Once
pub mod Found
pub mod Service
use agenstfer_agi.Base.{
  ℕ, zero, suc, String, Bool, true, false, ◌&&◌, ◌||◌, not, Option, none, some, List, [], ◌∷◌, ◌++◌,
  ◌==◌, if◌then◌else◌, Result, ok, err, ◌>>=◌, starts_with, joined, join_texts,
}
use agenstfer_agi.Base.Dict.{Dict, get, put}
use agenstfer_agi.Base.Sets.{add_new}
use agenstfer_agi.Base.Sort.{sorted}
use agenstfer_agi.Json.{Json, ℤ, pos, num}
use agenstfer_agi.Workflow.Models.{WorkflowNode, WorkflowDefinition, WorkflowValidation}
use agenstfer_agi.Workflow.Validator.{validate_workflow}
use agenstfer_agi.Workflow.Validator.Checks.{ValidatorError}
use agenstfer_agi.Approvals.State.{RunStatus}
use agenstfer_agi.Registry.Rows.{
  WorkflowDefinitionRow, AgentDefinitionRow, is_published, row_at, latest_published,
}
use agenstfer_agi.Registry.Bindings.{is_agent_run}
use agenstfer_agi.Policy.Profiles.{Settings}
use agenstfer_agi.Registry.Publish.{workflow_from_row}
use agenstfer_agi.Policy.{PolicyError}
use agenstfer_agi.Policy.Profiles.{ModelProfile, resolve_model_profile}
use agenstfer_agi.Runtime.Values.{truth}
use agenstfer_agi.Runtime.Conditions.{Failure, value_error, permission_error, required, text_or}
use agenstfer_agi.Runtime.Store.{Run, Store}
use agenstfer_agi.Runtime.Engine.{Executor, run_loop}
use agenstfer_agi.Runtime.Graph.{Invoke, build_graph, run_graph}
use agenstfer_agi.Runtime.Tables.{
  RunRow, Tables, run_with_key, run_at, store_of, with_store, save_run,
}

-- What a start raises: an exception of the runtime's or of the validator's.
pub data StartError : Type 0 where
  raised : Failure → StartError
  validation_raised : ValidatorError → StartError

unfoldable pub published_agent : Option AgentDefinitionRow → Result Failure AgentDefinitionRow
unfolding is_published
published_agent none = err value_error
published_agent (some row) = if is_published row.status then ok row else err value_error

unfoldable pub latest_published_agent :
    String → List AgentDefinitionRow → Result Failure AgentDefinitionRow
unfolding latest_published
latest_published_agent id agents = elim (latest_published id agents) [
  | none ↦ err value_error
  | some row ↦ ok row
]

-- A version that is an int and no bool is looked up; anything else means the latest.
unfoldable pub configured_agent :
    String → Option Json → List AgentDefinitionRow → Result Failure AgentDefinitionRow
unfolding published_agent latest_published_agent row_at
configured_agent id (some (num (pos version) zero)) agents =
    published_agent (row_at id version agents)
configured_agent id (some (num n zero)) agents = err value_error
configured_agent id _ agents = latest_published_agent id agents

unfoldable pub failure_of : PolicyError → Failure
failure_of PolicyError.value_error = value_error
failure_of PolicyError.permission_error = permission_error

unfoldable pub profile_id_of : Result PolicyError ModelProfile → Result Failure String
unfolding failure_of
profile_id_of (ok profile) = ok profile.id
profile_id_of (err e) = err (failure_of e)

-- `str(node.config.get("model_profile") or spec.model_profile)`
unfoldable pub requested_profile : (Json → String) → Option Json → String → String
unfolding truth text_or
requested_profile py_str none default = default
requested_profile py_str (some j) default = if truth j then text_or py_str j else default

-- The versions and the profiles that a run is pinned to.
abbrev pub Pins : Type 0
Pins = Dict ℕ × List String

module _ (py_str : Json → String) (settings : Settings) (agents : List AgentDefinitionRow) where
  unfoldable pub pin_agent : WorkflowNode → Pins → Result Failure Pins
  unfolding required text_or configured_agent profile_id_of requested_profile resolve_model_profile
      put get add_new
  pin_agent node (versions, profiles) = do
    agent_id ← required "agent_id" node.config
    agent ← configured_agent (text_or py_str agent_id) (get "agent_version" node.config) agents
    let requested =
        requested_profile py_str (get "model_profile" node.config) agent.definition.model_profile
    profile ← profile_id_of (resolve_model_profile requested settings)
    ok (put agent.id agent.version versions, add_new profiles (profile ∷ []))

  unfoldable pub pin_agents : List WorkflowNode → Pins → Result Failure Pins
  unfolding pin_agent is_agent_run
  pin_agents [] pins = ok pins
  pin_agents (node ∷ nodes) pins =
      if is_agent_run py_str settings agents node.kind
      then (pin_agent node pins >>= pin_agents nodes)
      else pin_agents nodes pins

-- The profile of a run: the only one, or `mixed[...]`.
unfoldable pub pinned_profile : List String → String
unfolding join_texts sorted
pinned_profile (profile ∷ []) = profile
pinned_profile profiles = joined "mixed[" (joined (join_texts "," (sorted profiles)) "]")

-- The workflows that the graph runs.
unfoldable pub runs_as_graph : String → Bool
runs_as_graph id =
    id == "builtin-growth-diagnostic"
    || id == "growth-diagnostic"
    || starts_with id "qualification-"

abbrev pub Started : Type 0
Started = Tables × Result StartError RunRow

unfoldable pub resumed : RunRow → Tables → Store × Result Failure Run → Started
unfolding save_run
resumed row db (s, ok run) = (save_run row s db, ok (with_store row s))
resumed row db (s, err e) = (save_run row s db, err (raised e))

module _ (isalnum : String → Bool) (py_str : Json → String) (py_int : Json → Option ℤ)
    (execute : RunRow → Executor) (takes : List String → Bool) (ainvoke : Invoke)
    (scope : Tables → Result Failure String) where
  -- The run's engine on the order of the validator's report.
  unfoldable pub run_engine : RunRow → WorkflowDefinition → List String → Tables → Started
  unfolding resumed runs_as_graph run_loop run_graph build_graph
  run_engine row w order db =
      let s = store_of row db in
      let work = execute row in
      resumed row db (
        if runs_as_graph w.id
        then run_graph ainvoke (build_graph work w py_str py_int takes order) (scope db) s
        else run_loop work py_str py_int w order s)

  unfoldable pub resume_valid :
      RunRow → WorkflowDefinition → Result ValidatorError WorkflowValidation → Tables → Started
  unfolding run_engine
  resume_valid row w (err e) db = (db, err (validation_raised e))
  resume_valid row w (ok v) db =
      if not v.valid
      then (db, err (raised value_error))
      else run_engine row w v.topological_order db

  unfoldable pub resume_persisted_workflow : RunRow → WorkflowDefinition → Tables → Started
  unfolding resume_valid validate_workflow
  resume_persisted_workflow row w db = resume_valid row w (validate_workflow isalnum w) db

  -- What is left behind; an exception is logged.
  unfoldable pub execute_found : Option RunRow → Option WorkflowDefinitionRow → Tables → Tables
  unfolding resume_persisted_workflow workflow_from_row
  execute_found none w db = db
  execute_found (some row) none db = db
  execute_found (some row) (some w) db = (resume_persisted_workflow row (workflow_from_row w) db).0

  unfoldable pub execute_workflow_in_background : String → String → ℕ → Tables → Tables
  unfolding execute_found run_at row_at
  execute_workflow_in_background run_id workflow_id workflow_version db =
      execute_found (run_at run_id db.runs) (row_at workflow_id workflow_version db.workflows) db

  module _ (settings : Settings) (new_id : String → String) where
    abbrev pub new_run : WorkflowDefinitionRow → String → Option String → Json → Pins → RunRow
    new_run row key actor_id input_json pins = record {
      id = new_id key;
      idempotency_key = key;
      workflow_id = row.id;
      workflow_version = row.version;
      model_profile = pinned_profile pins.1;
      agent_versions = pins.0;
      created_by = actor_id;
      run = record {
        status = RunStatus.running;
        current_step = none;
        input_json = input_json;
        output_json = none;
        error = none;
      };
      steps = [];
      approvals = [];
    }

    -- From the pins on.
    unfoldable pub start_pinned :
        WorkflowDefinitionRow
        → String
        → Option String
        → Json
        → Bool
        → Tables
        → Result Failure Pins
        → Started
    unfolding resume_persisted_workflow workflow_from_row pinned_profile
    start_pinned row key actor_id input_json execute_async db (err e) = (db, err (raised e))
    start_pinned row key actor_id input_json execute_async db (ok pins) =
        let run = new_run row key actor_id input_json pins in
        let db' = record db { runs = db.runs ++ run ∷ [] } in
        if execute_async
        then (db', ok run)
        else resume_persisted_workflow run (workflow_from_row row) db'

    unfoldable pub start_new :
        WorkflowDefinitionRow → String → Option String → Json → Bool → Tables → Started
    unfolding start_pinned pin_agents is_published workflow_from_row
    start_new row key actor_id input_json execute_async db =
        if not (is_published row.status)
        then (db, err (raised value_error))
        else start_pinned row key actor_id input_json execute_async db
            (pin_agents py_str settings db.agents (workflow_from_row row).nodes ([], []))

    unfoldable pub start_unless :
        Option RunRow
        → WorkflowDefinitionRow
        → String
        → Option String
        → Json
        → Bool
        → Tables
        → Started
    unfolding start_new
    start_unless none row key actor_id input_json execute_async db =
        start_new row key actor_id input_json execute_async db
    start_unless (some existing) row key actor_id input_json execute_async db = (db, ok existing)

    unfoldable pub start_persisted_workflow :
        WorkflowDefinitionRow → String → Option String → Json → Bool → Tables → Started
    unfolding start_unless run_with_key
    start_persisted_workflow row key actor_id input_json execute_async db =
        start_unless (run_with_key key db.runs) row key actor_id input_json execute_async db
