-- ===== src/Workflow/Models.antt =====
-- workflow/models.py: the graph of a workflow. The editor's `position` and the human-readable
-- `message` of an issue are left out, since no operation reads them.
use agenstfer_agi.Base.{ℕ, String, Bool, Option, List, map, ◌&&◌, leb, length}
use agenstfer_agi.Base.Dict.{Dict}
use agenstfer_agi.Base.Sets.{unique}
use agenstfer_agi.Json.{Json}

pub data NodeKind : Type 0 where
  manual_trigger onboarding_trigger schedule_trigger data_source_sync normalize_context : NodeKind
  okf_compile knowledge_search agent_run deterministic_score condition policy_check : NodeKind
  approval report_output : NodeKind

pub NodeKind-discrete : Discrete NodeKind
NodeKind-discrete = hlevel

pub record WorkflowNode : Type 0 where
  pub id : String
  pub kind : NodeKind
  pub label : String
  pub config : Dict Json
  pub output_type : Option String

pub record WorkflowEdge : Type 0 where
  pub id : String
  pub source : String
  pub target : String
  pub data_type : String
  pub branch : Option String

pub record WorkflowDefinition : Type 0 where
  pub id : String
  pub name : String
  pub version : ℕ
  pub status : String
  pub nodes : List WorkflowNode
  pub edges : List WorkflowEdge

-- The model validator `unique_ids`: no list of ids is longer than its set.
unfoldable pub unique_ids : WorkflowDefinition → Bool
unique_ids w =
    let node_ids = map (λ (n : WorkflowNode). n.id) w.nodes in
    let edge_ids = map (λ (e : WorkflowEdge). e.id) w.edges in
    leb (length node_ids) (length (unique node_ids))
    && leb (length edge_ids) (length (unique edge_ids))

pub record WorkflowIssue : Type 0 where
  pub code : String
  pub node_id : Option String
  pub edge_id : Option String

pub record WorkflowValidation : Type 0 where
  pub valid : Bool
  pub issues : List WorkflowIssue
  pub topological_order : List String
