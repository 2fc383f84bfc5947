-- ===== src/Registry/Bindings.antt =====
-- validate_workflow_bindings of workflow/registry_service.py, after seeding. In a configuration a
-- number without a binary point (`num m 0`) is an int. `str` of a value that is no text is a
-- parameter.
use agenstfer_agi.Base.{
  ℕ, String, Bool, true, false, ◌&&◌, ◌||◌, not, Option, none, some, List, [], ◌∷◌, ◌++◌, ◌==◌,
  nat_beq, ltb, if◌then◌else◌, Result, ok, err, ◌>>=◌, is_empty, all,
}
use agenstfer_agi.Base.Dict.{get, put}
use agenstfer_agi.Base.Sets.{elem}
use agenstfer_agi.Json.{Json, Items, null, bool, num, str, arr, obj, nil, cons, pos}
use agenstfer_agi.Workflow.Models.{NodeKind, agent_run, WorkflowNode, WorkflowDefinition}
use agenstfer_agi.Policy.{PolicyError}
use agenstfer_agi.Policy.Profiles.{Settings, ModelProfile, resolve_model_profile}
use agenstfer_agi.Registry.Rows.{AgentDefinitionRow, is_published, row_at, latest_published}

abbrev pub profile_ids : List String
profile_ids = "local-balanced" ∷ "local-strong" ∷ "cloud-balanced" ∷ []

-- A call of resolve_model_profile raises nothing.
unfoldable pub resolves : Result PolicyError ModelProfile → Bool
resolves (ok profile) = true
resolves (err e) = false

-- The ValueError lists the issues; a value that cannot be hashed or sorted raises TypeError.
pub data BindingError : Type 0 where
  binding_failed : List String → BindingError
  type_error : BindingError

-- `agent_version` of a node: left out, refused, or a version.
pub data Pin : Type 0 where
  unpinned refused : Pin
  pinned : ℕ → Pin

unfoldable pub pin_of : Option Json → Pin
pin_of none = Pin.unpinned
pin_of (some null) = Pin.unpinned
pin_of (some (num (pos n) k)) = if nat_beq k 0 && ltb 0 n then Pin.pinned n else Pin.refused
pin_of (some _) = Pin.refused

unfoldable pub published_row : Option AgentDefinitionRow → Option AgentDefinitionRow
unfolding is_published
published_row none = none
published_row (some row) = if is_published row.status then some row else none

unfoldable pub bound_row : List AgentDefinitionRow → String → Pin → Option AgentDefinitionRow
unfolding published_row latest_published row_at
bound_row agents agent_id Pin.unpinned = latest_published agent_id agents
bound_row agents agent_id Pin.refused = none
bound_row agents agent_id (Pin.pinned version) = published_row (row_at agent_id version agents)

unfoldable pub output_differs : Option Json → String → Bool
output_differs none output_type = false
output_differs (some null) output_type = false
output_differs (some (str s)) output_type = not (s == output_type)
output_differs (some _) output_type = true

abbrev hashable : Json → Bool
hashable (arr items) = false
hashable (obj fields) = false
hashable _ = true

unfoldable pub all_items : (Json → Bool) → Items → Bool
all_items f nil = true
all_items f (cons j js) = f j && all_items f js

-- `set(node_caps) - set(spec.capabilities)`, with repetitions.
unfoldable pub expanding : List String → Items → Items
unfolding elem
expanding capabilities nil = nil
expanding capabilities (cons (str s) js) =
    let rest = expanding capabilities js in if elem s capabilities then rest else cons (str s) rest
expanding capabilities (cons j js) = cons j (expanding capabilities js)

abbrev is_str : Json → Bool
is_str (str s) = true
is_str _ = false

abbrev is_number : Json → Bool
is_number (num m k) = true
is_number (bool b) = true
is_number _ = false

abbrev is_null : Json → Bool
is_null null = true
is_null _ = false

abbrev is_nil : Items → Bool
is_nil nil = true
is_nil (cons j js) = false

-- Sorting raises nothing: all are texts, all are numbers, or there is one value only.
unfoldable pub sortable : Items → Bool
unfolding all_items
sortable js = all_items is_str js || all_items is_number js || all_items is_null js

-- The issue with a node's `capabilities`.
unfoldable pub capability_issues :
    Option Json → List String → String → Result BindingError (List String)
unfolding expanding sortable all_items
capability_issues none capabilities id = ok []
capability_issues (some null) capabilities id = ok []
capability_issues (some (arr items)) capabilities id =
    if not (all_items hashable items)
    then err type_error
    else if not (sortable (expanding capabilities items))
    then err type_error
    else ok (if is_nil (expanding capabilities items) then [] else id ∷ [])
capability_issues (some _) capabilities id = ok (id ∷ [])

-- The issue with a node's `model_profile`.
unfoldable pub profile_issues : Settings → Option Json → String → Result BindingError (List String)
unfolding elem resolves resolve_model_profile
profile_issues settings (some (str s)) id =
    ok (if elem s profile_ids && resolves (resolve_model_profile s settings) then [] else id ∷ [])
profile_issues settings (some (arr items)) id = err type_error
profile_issues settings (some (obj fields)) id = err type_error
profile_issues settings _ id = ok (id ∷ [])

unfoldable pub text_of : (Json → String) → Option Json → String
text_of py_str none = ""
text_of py_str (some (str s)) = s
text_of py_str (some j) = py_str j

module _ (py_str : Json → String) (settings : Settings) (agents : List AgentDefinitionRow) where
  -- `str(node.config.get("agent_id", ""))`
  unfoldable pub agent_id_of : WorkflowNode → String
  unfolding text_of
  agent_id_of node = text_of py_str (get "agent_id" node.config)

  -- A node with its issues, each by the id of the node.
  unfoldable pub bind_row :
      WorkflowNode → Option AgentDefinitionRow → Result BindingError (WorkflowNode × List String)
  unfolding output_differs capability_issues profile_issues
  bind_row node none = ok (node, node.id ∷ [])
  bind_row node (some row) = do
    let spec = row.definition
    let differs = output_differs (get "output_type" node.config) spec.output_type
    of_capabilities ← capability_issues (get "capabilities" node.config) spec.capabilities node.id
    of_profile ← profile_issues settings (get "model_profile" node.config) node.id
    ok (
      record node { config = put "agent_version" (num (pos row.version) 0) node.config },
      (if differs then node.id ∷ [] else []) ++ of_capabilities ++ of_profile,
    )

  unfoldable pub is_agent_run : NodeKind → Bool
  is_agent_run agent_run = true
  is_agent_run _ = false

  unfoldable pub bind_node : WorkflowNode → Result BindingError (WorkflowNode × List String)
  unfolding is_agent_run bind_row bound_row pin_of agent_id_of
  bind_node node =
      if not (is_agent_run node.kind)
      then ok (node, [])
      else bind_row node
          (bound_row agents (agent_id_of node) (pin_of (get "agent_version" node.config)))

  unfoldable pub bind_nodes :
      List WorkflowNode → Result BindingError (List WorkflowNode × List String)
  unfolding bind_node
  bind_nodes [] = ok ([], [])
  bind_nodes (n ∷ ns) =
      bind_node n >>= λ first. bind_nodes ns >>= λ rest. ok (first.0 ∷ rest.0, first.1 ++ rest.1)

  unfoldable pub agent_ids : List WorkflowNode → List String
  unfolding is_agent_run agent_id_of
  agent_ids [] = []
  agent_ids (n ∷ ns) =
      let rest = agent_ids ns in if is_agent_run n.kind then agent_id_of n ∷ rest else rest

  abbrev required_report_agents : List String
  required_report_agents =
      "company-analyst" ∷ "evidence-reviewer" ∷ "growth-opportunity-analyst" ∷ "wiki-curator" ∷ []

  unfoldable pub role_issues : WorkflowDefinition → List String
  unfolding agent_ids elem
  role_issues w =
      if w.id == "builtin-growth-diagnostic"
        && not (all (λ a. elem a (agent_ids w.nodes)) required_report_agents)
      then w.id ∷ []
      else []

  unfoldable pub validate_workflow_bindings :
      WorkflowDefinition → Result BindingError WorkflowDefinition
  unfolding bind_nodes role_issues
  validate_workflow_bindings w = bind_nodes w.nodes >>= λ bound.
      let issues = bound.1 ++ role_issues w in
      if is_empty issues then ok (record w { nodes = bound.0 }) else err (binding_failed issues)
