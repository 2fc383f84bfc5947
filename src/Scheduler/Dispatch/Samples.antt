-- ===== src/Scheduler/Dispatch/Samples.antt =====
-- Two items of one event, for two workflows.
use agenstfer_agi.Base.{
  String, ◌≡◌, refl, Bool, true, false, Option, none, some, List, [], ◌∷◌, ◌++◌, Result, ok, err,
}
use agenstfer_agi.Base.Dict.{Dict, keys}
use agenstfer_agi.Json.{Json, ℤ, str, num, pos, bool, obj, end}
use agenstfer_agi.Workflow.Models.{
  NodeKind, manual_trigger, report_output, approval, WorkflowNode, WorkflowEdge, WorkflowDefinition,
}
use agenstfer_agi.Workflow.Validator.{reach_issues, approvals, outputs}
use agenstfer_agi.Workflow.Validator.Checks.{approval_issues}
use agenstfer_agi.Workflow.Validator.Graph.{kahn, degree, release, successors, walk}
use agenstfer_agi.Workflow.Validator.Links.{scan_edges, zero_degrees}
use agenstfer_agi.Policy.Profiles.{Settings}
use agenstfer_agi.Registry.Rows.{WorkflowDefinitionRow, published, is_published, row_at}
use agenstfer_agi.Events.{queued, EventDispatchQueue, is_queued}
use agenstfer_agi.Approvals.State.{RunStatus}
use agenstfer_agi.Runtime.Conditions.{Failure}
use agenstfer_agi.Runtime.Engine.{Executor}
use agenstfer_agi.Runtime.Graph.{Invoke}
use agenstfer_agi.Runtime.Tables.{RunRow, Tables, run_with_key, run_at}
use agenstfer_agi.Runtime.Start.{StartError, Started, start_persisted_workflow}
use agenstfer_agi.Runtime.Start.Service.{persisted_service}
use agenstfer_agi.Scheduler.Dispatch.{event_at, event_input, target_row, dispatch_queued_events}
use agenstfer_agi.Scheduler.Dispatch.Repeated.{sent_as, event_runs_once}

abbrev node : String → NodeKind → Dict Json → WorkflowNode
node i k c = record { id = i; kind = k; label = i; config = c; output_type = none }

abbrev edge : String → String → String → WorkflowEdge
edge s t d = record { id = s; source = s; target = t; data_type = d; branch = none }

abbrev reported : String → WorkflowDefinition
reported id = record {
  id = id;
  name = id;
  version = 1;
  status = "published";
  nodes =
      node "start" manual_trigger []
      ∷ node "report" report_output (("format", str "okf") ∷ [])
      ∷ node "approval" approval (("role", str "approver") ∷ ("timeout_days", num (pos 7) 0) ∷ [])
      ∷ [];
  edges = edge "start" "report" "control" ∷ edge "report" "approval" "artifact" ∷ [];
}

abbrev row : String → WorkflowDefinitionRow
row id = record {
  id = id;
  version = 1;
  name = id;
  status = published;
  definition = reported id;
  created_by = none;
}

abbrev tables : Tables
tables = record {
  workflows = row "first" ∷ row "second" ∷ [];
  agents = [];
  runs = [];
  candidates = [];
}

abbrev ascii : String → Bool
ascii s = true

abbrev text : Json → String
text j = ""

abbrev int : Json → Option ℤ
int (num n k) = some n
int _ = none

-- A node notes itself, and writes a candidate.
abbrev noted : RunRow → Executor
noted run n candidates entries =
    ok ("okf-1" ∷ candidates, ("candidate_id", str "okf-1") ∷ (n.id, bool true) ∷ entries)

abbrev all_names : List String → Bool
all_names order = true

abbrev idle : Invoke
idle fs g db = (db, ok g)

abbrev scope : Tables → Result Failure String
scope db = ok "internal"

abbrev settings : Settings
settings = record { cloud_models_enabled = false; cloud_provider = none; has_cloud_api_key = false }

abbrev own_id : String → String
own_id key = key

abbrev item : String → String → EventDispatchQueue
item id target = record {
  id = id;
  event_id = "evt-1";
  trigger_rule_id = id;
  target_workflow_id = target;
  target_workflow_version = some 1;
  status = queued;
  workflow_run_id = none;
  error = none;
}

abbrev error_text : StartError → String
error_text e = "failed"

-- The start for the first item.
abbrev started : Started
started =
    start_persisted_workflow ascii text int noted all_names idle scope settings own_id (row "first")
      "event:evt-1" none (event_input "evt-1" (obj end)) false tables

abbrev run_or : RunRow → Result StartError RunRow → RunRow
run_or other (ok run) = run
run_or other (err e) = other

abbrev no_run : RunRow
no_run = record {
  id = "";
  idempotency_key = "";
  workflow_id = "";
  workflow_version = 0;
  model_profile = "";
  agent_versions = [];
  created_by = none;
  run = record {
    status = RunStatus.failed;
    current_step = none;
    input_json = obj end;
    output_json = none;
    error = none;
  };
  steps = [];
  approvals = [];
}

abbrev run : RunRow
run = run_or no_run started.1

started_lem : started ≡ (started.0, ok run)
unfolding start_persisted_workflow kahn scan_edges zero_degrees degree keys release successors
    reach_issues walk approval_issues approvals outputs
started_lem = refl

event_runs_once_example :
    (dispatch_queued_events error_text
        (persisted_service ascii text int noted all_names idle scope settings own_id)
        []
        (item "d1" "first" ∷ item "d2" "second" ∷ [])
        tables
      ≡ (
        started.0,
        sent_as run.id (item "d1" "first") ∷ sent_as run.id (item "d2" "second") ∷ [],
        run.id ∷ run.id ∷ [],
      ))
    × (started.0.runs ≡ [] ++ run ∷ [])
unfolding is_queued target_row row_at is_published run_with_key run_at event_at
event_runs_once_example =
    event_runs_once ascii text int noted all_names idle scope settings own_id error_text []
      (item "d1" "first") (item "d2" "second") (row "first") (row "second") tables started.0 run
      refl refl refl refl refl refl refl refl refl started_lem
