-- ===== src/Runtime/Samples.antt =====
-- A small workflow that both engines run.
use agenstfer_agi.Base.{
  String, ◌≡◌, refl, Option, none, some, [], ◌∷◌, ◌++◌, ok, err, true, false, Bool, Result, ◌⊎◌,
  List, not, arith,
}
use agenstfer_agi.Base.Dict.{Dict, get, put}
use agenstfer_agi.Base.Sets.{add_new, elem}
use agenstfer_agi.Base.Sort.{sorted}
use agenstfer_agi.Json.{pos, Json, ℤ, num, str, bool, end, obj, null}
use agenstfer_agi.Workflow.Models.{
  NodeKind, manual_trigger, policy_check, approval, WorkflowNode, WorkflowEdge, WorkflowDefinition,
}
use agenstfer_agi.Workflow.Validator.Links.{node_table}
use agenstfer_agi.Approvals.State.{RunStatus, StepStatus}
use agenstfer_agi.Runtime.Conditions.{Failure, text_or}
use agenstfer_agi.Runtime.Store.{
  RunState, Step, Store, new_step, step_at, passed, put_step, step_or_new, load_state, changed,
}
use agenstfer_agi.Runtime.Engine.{
  await_approval, store_approval, new_approval, candidate_in, int_value, incoming, enter, Executor,
  moved, set_step, run_nodes, run_loop, visit_named, visit, take_turn, is_active, after_work,
  store_result, fired,
}
use agenstfer_agi.Registry.Rows.{WorkflowDefinitionRow, published, is_published, row_at}
use agenstfer_agi.Registry.Bindings.{is_agent_run}
use agenstfer_agi.Policy.Profiles.{Settings}
use agenstfer_agi.Registry.Publish.{workflow_from_row}
use agenstfer_agi.Runtime.Tables.{RunRow, Tables, run_with_key, run_at}
use agenstfer_agi.Runtime.Start.{
  StartError, start_persisted_workflow, start_unless, start_new, start_pinned, pin_agents, new_run,
  execute_workflow_in_background,
}
use agenstfer_agi.Runtime.Start.Once.{start_once, background_same}
use agenstfer_agi.Runtime.Approved.{from_work, behind_approval_skipped}
use agenstfer_agi.Runtime.Restart.{restart, restart_entered}
use agenstfer_agi.Runtime.Graph.{Invoke, IsChain, then_invoke, build_graph, run_graph}
use agenstfer_agi.Runtime.Graph.Same.{SameEnd, engines_agree}

abbrev node : String → NodeKind → Dict Json → WorkflowNode
node i k c = record { id = i; kind = k; label = i; config = c; output_type = none }

abbrev edge : String → String → String → WorkflowEdge
edge s t d = record { id = s; source = s; target = t; data_type = d; branch = none }

abbrev start_node : WorkflowNode
start_node = node "start" manual_trigger []

abbrev policy_node : WorkflowNode
policy_node = node "policy" policy_check (("policy_id", str "material-claim-evidence") ∷ [])

abbrev approval_node : WorkflowNode
approval_node = node "approval" approval []

abbrev sample : WorkflowDefinition
sample = record {
  id = "sample";
  name = "Sample";
  version = 1;
  status = "published";
  nodes = start_node ∷ policy_node ∷ approval_node ∷ [];
  edges = edge "start" "policy" "control" ∷ edge "policy" "approval" "control" ∷ [];
}

-- A node notes itself, and writes a candidate.
abbrev noted : Executor
noted n candidates entries =
    ok ("okf-1" ∷ candidates, ("candidate_id", str "okf-1") ∷ (n.id, bool true) ∷ entries)

abbrev text : Json → String
text j = ""

abbrev int : Json → Option ℤ
int (num n k) = some n
int _ = none

abbrev begun : Store
begun = record {
  run = record {
    status = RunStatus.running;
    current_step = none;
    input_json = obj end;
    output_json = none;
    error = none;
  };
  steps = [];
  approvals = [];
  candidates = [];
}

-- The state and the rows when the trigger's turn is over.
abbrev started : RunState
started = record {
  active_edges = "start" ∷ [];
  entries = ("candidate_id", str "okf-1") ∷ ("start", bool true) ∷ ("input", obj end) ∷ [];
}

abbrev start_step : Step
start_step = record {
  step_id = "start";
  sequence = 1;
  status = StepStatus.completed;
  output = ("candidate_id", str "okf-1") ∷ ("start", bool true) ∷ [];
}

abbrev interrupted : Store
interrupted = record {
  run = record {
    status = RunStatus.running;
    current_step = some "start";
    input_json = obj end;
    output_json = some started;
    error = none;
  };
  steps = start_step ∷ [];
  approvals = [];
  candidates = "okf-1" ∷ [];
}

interrupted_lem :
    run_nodes noted sample text int 1 ("start" ∷ []) (load_state begun.run) begun
    ≡ (interrupted, ok (moved started))
unfolding run_nodes visit_named visit take_turn after_work store_result fired is_active load_state
    step_at put_step step_or_new passed changed get put node_table add_new sorted elem
interrupted_lem = refl

restart_example :
    run_loop noted text int sample ("start" ∷ "policy" ∷ "approval" ∷ []) interrupted
    ≡ run_loop noted text int sample ("start" ∷ "policy" ∷ "approval" ∷ []) begun
restart_example =
    restart noted sample text int ("start" ∷ []) ("policy" ∷ "approval" ∷ []) started begun
      interrupted interrupted_lem

restart_entered_example :
    run_loop noted text int sample
      ("start" ∷ "policy" ∷ "approval" ∷ [])
      (set_step (new_step 2 "policy") interrupted)
    ≡ run_loop noted text int sample ("start" ∷ "policy" ∷ "approval" ∷ []) begun
unfolding get put node_table step_at
restart_entered_example =
    restart_entered noted sample text int ("start" ∷ []) ("approval" ∷ []) policy_node started begun
      interrupted interrupted_lem refl refl

-- Names that the builder takes.
abbrev not_reserved : List String → Bool
not_reserved order = not (elem "status" order)

-- An invocation of a chain.
unfoldable fold_chain : Invoke
fold_chain [] g db = (db, ok g)
fold_chain (f ∷ fs) g db = then_invoke (f g db) (fold_chain fs)

fold_chain-IsChain : IsChain 24 fold_chain
unfolding fold_chain
fold_chain-IsChain = record { none_left = λ g db. refl; one_more = λ f fs g db few. refl }

engines_agree_example :
    SameEnd (run_loop noted text int sample ("start" ∷ "policy" ∷ "approval" ∷ []) begun) (
      run_graph fold_chain
        (build_graph noted sample text int not_reserved ("start" ∷ "policy" ∷ "approval" ∷ []))
        (ok "internal")
        begun)
unfolding elem
engines_agree_example =
    engines_agree noted sample text int not_reserved 24 fold_chain "internal"
      ("start" ∷ "policy" ∷ "approval" ∷ []) begun fold_chain-IsChain refl (omega arith) refl

abbrev sample_row : WorkflowDefinitionRow
sample_row = record {
  id = "sample";
  version = 1;
  name = "Sample";
  status = published;
  definition = sample;
  created_by = none;
}

abbrev tables : Tables
tables = record { workflows = sample_row ∷ []; agents = []; runs = []; candidates = [] }

abbrev ascii : String → Bool
ascii s = true

abbrev works : RunRow → Executor
works row = noted

abbrev scope : Tables → Result Failure String
scope db = ok "internal"

abbrev settings : Settings
settings = record { cloud_models_enabled = false; cloud_provider = none; has_cloud_api_key = false }

abbrev own_id : String → String
own_id key = key

start_once_example :
    (let y =
        start_persisted_workflow ascii text int works not_reserved fold_chain scope settings own_id
          sample_row "key-1" none
          (obj end)
          false
          tables in
      ((e : StartError) × (y ≡ (tables, err e)))
      ⊎ ((run : RunRow) × (y.0.runs ≡ [] ++ run ∷ [])
          × (run.idempotency_key ≡ "key-1")
          × (run.id ≡ "key-1")
          × (start_persisted_workflow ascii text int works not_reserved fold_chain scope settings
                own_id sample_row "key-1"
                (some "user-1")
                null
                true
                y.0
              ≡ (y.0, ok run))))
unfolding run_with_key run_at
start_once_example =
    start_once ascii text int works not_reserved fold_chain scope settings own_id sample_row
      sample_row "key-1" none (some "user-1") (obj end) null false true tables refl refl

abbrev queued_run : RunRow
queued_run =
    new_run ascii text int works not_reserved fold_chain scope settings own_id sample_row "key-1"
      none (obj end) ([], [])

background_same_example :
    execute_workflow_in_background ascii text int works not_reserved fold_chain scope "key-1"
      "sample" 1
      (record tables { runs = queued_run ∷ [] })
    ≡ (start_persisted_workflow ascii text int works not_reserved fold_chain scope settings own_id
        sample_row "key-1" none
        (obj end)
        false
        tables).0
unfolding run_with_key run_at row_at start_persisted_workflow start_unless start_new start_pinned
    pin_agents is_agent_run is_published workflow_from_row
background_same_example =
    background_same ascii text int works not_reserved fold_chain scope settings own_id sample_row
      "key-1" none (obj end) tables refl refl refl queued_run
      (record tables { runs = queued_run ∷ [] }) refl

-- A workflow with a policy check behind its approval.
abbrev gated : WorkflowDefinition
gated = record sample {
  nodes = start_node ∷ approval_node ∷ policy_node ∷ [];
  edges = edge "start" "approval" "control" ∷ edge "approval" "policy" "control" ∷ [];
}

abbrev approval_step : StepStatus → Step
approval_step status = record {
  step_id = "approval";
  sequence = 2;
  status = status;
  output = ("candidate_id", str "okf-1") ∷ [];
}

abbrev paused : Store
paused = record {
  run = record {
    status = RunStatus.awaiting_approval;
    current_step = some "approval";
    input_json = obj end;
    output_json = some started;
    error = none;
  };
  steps = start_step ∷ approval_step StepStatus.awaiting_approval ∷ [];
  approvals =
      record { requested_role = "approver"; candidate_id = "okf-1"; timeout_days = pos 7 } ∷ [];
  candidates = "okf-1" ∷ [];
}

abbrev approved : Store
approved = record paused {
  run = record paused.run { status = RunStatus.running };
  steps = start_step ∷ approval_step StepStatus.completed ∷ [];
}

behind_approval_skipped_example :
    (let step = new_step 3 "policy" in
      visit noted gated text int 3 policy_node started approved ≡ (
        set_step (record step { status = StepStatus.skipped }) (enter policy_node step approved),
        ok (moved started),
      ))
unfolding run_nodes visit_named visit take_turn after_work store_result await_approval
    store_approval new_approval candidate_in int_value text_or fired is_active load_state step_at
    put_step step_or_new passed changed get put node_table add_new sorted elem incoming from_work
behind_approval_skipped_example =
    behind_approval_skipped gated noted text int ("start" ∷ "approval" ∷ "policy" ∷ [])
      ("start" ∷ "approval" ∷ []) policy_node started begun paused approved approved refl refl refl
      refl refl refl refl
