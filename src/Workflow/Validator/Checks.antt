-- ===== src/Workflow/Validator/Checks.antt =====
-- The parts of validate_workflow that look at one node, at its branches and at the approval.
use Prim.Native.Char.{code}
use agenstfer_agi.Base.{
  ℕ, suc, String, Bool, true, false, ◌&&◌, ◌||◌, not, Option, none, some, List, [], ◌∷◌, ◌++◌,
  if◌then◌else◌, nat_beq, leb, select, is_empty, ◌==◌, Result, ok, err, ◌>>=◌,
}
use agenstfer_agi.Base.Dict.{get}
use agenstfer_agi.Base.Sets.{elem}
use agenstfer_agi.Base.Sort.{sorted}
use agenstfer_agi.Json.{Json, null, str, arr, obj}
use agenstfer_agi.Workflow.Models.{
  NodeKind, manual_trigger, onboarding_trigger, schedule_trigger, condition, approval,
  report_output, WorkflowNode, WorkflowEdge, WorkflowIssue,
}
use agenstfer_agi.Workflow.Catalog.{node_catalog}

-- What Python raises on the way: a lookup of a missing key, or the hash of a list. The last one is
-- the model's, for a loop that has no fuel left.
pub data ValidatorError : Type 0 where
  key_error type_error out_of_fuel : ValidatorError

-- `kind in TRIGGERS`.
unfoldable pub is_trigger : NodeKind → Bool
is_trigger manual_trigger = true
is_trigger onboarding_trigger = true
is_trigger schedule_trigger = true
is_trigger _ = false

unfoldable pub is_condition : NodeKind → Bool
is_condition condition = true
is_condition _ = false

unfoldable pub is_approval : NodeKind → Bool
is_approval approval = true
is_approval _ = false

unfoldable pub is_report : NodeKind → Bool
is_report report_output = true
is_report _ = false

abbrev pub issue : String → WorkflowIssue
issue c = record { code = c; node_id = none; edge_id = none }

abbrev pub node_issue : String → String → WorkflowIssue
node_issue c n = record { code = c; node_id = some n; edge_id = none }

unfoldable pub issues_when : Bool → WorkflowIssue → List WorkflowIssue
issues_when b i = if b then i ∷ [] else []

-- `value in (None, "")`
is_blank_value : Json → Bool
is_blank_value null = true
is_blank_value (str s) = s == ""
is_blank_value _ = false

unfoldable pub is_blank : Option Json → Bool
unfolding is_blank_value
is_blank none = true
is_blank (some v) = is_blank_value v

unfoldable pub missing_config : WorkflowNode → List String
unfolding is_blank node_catalog
missing_config n =
    sorted (select (λ k. is_blank (get k n.config)) (node_catalog n.kind).required_config)

abbrev condition_operators : List String
condition_operators = "eq" ∷ "ne" ∷ "gt" ∷ "gte" ∷ "lt" ∷ "lte" ∷ "contains" ∷ []

-- `operator in CONDITION_OPERATORS`: a list or a dict has no hash.
operator_value_known : Json → Result ValidatorError Bool
operator_value_known (str s) = ok (elem s condition_operators)
operator_value_known (arr xs) = err type_error
operator_value_known (obj fs) = err type_error
operator_value_known _ = ok false

unfoldable pub operator_known : Option Json → Result ValidatorError Bool
unfolding operator_value_known elem
operator_known none = ok false
operator_known (some v) = operator_value_known v

-- `field.replace("_", "").replace(".", "")`
unfoldable pub without_separators : String → String
without_separators String.[] = String.[]
without_separators (String.◌∷◌ c s) =
    let rest = without_separators s in
    if nat_beq (code c) b'_' || nat_beq (code c) b'.' then rest else String.◌∷◌ c rest

-- `sorted(...) != ["false", "true"]`
unfoldable pub is_false_true : List String → Bool
is_false_true (a ∷ b ∷ []) = a == "false" && b == "true"
is_false_true _ = false

unfoldable pub branch_labels : List WorkflowEdge → List String
branch_labels [] = []
branch_labels (e ∷ es) =
    let rest = branch_labels es in elim e.branch [ none ↦ rest | some b ↦ b ∷ rest ]

unfoldable pub branch_issues : List WorkflowEdge → WorkflowNode → List WorkflowIssue
unfolding is_condition is_false_true branch_labels issues_when
branch_issues edges n =
    let labels = branch_labels (select (λ (e : WorkflowEdge). e.source == n.id) edges) in
    if is_condition n.kind
    then issues_when (not (is_false_true (sorted labels))) (node_issue "condition.branches" n.id)
    else issues_when (not (is_empty labels)) (node_issue "edge.unexpected_branch" n.id)

unfoldable pub all_branch_issues : List WorkflowEdge → List WorkflowNode → List WorkflowIssue
unfolding branch_issues
all_branch_issues edges [] = []
all_branch_issues edges (n ∷ ns) = branch_issues edges n ++ all_branch_issues edges ns

-- `positions[node_id]`: no id stands twice in the order.
unfoldable pub position : String → List String → Option ℕ
position x [] = none
position x (y ∷ ys) =
    let rest = position x ys in
    if y == x then some 0 else elim rest [ none ↦ none | some i ↦ some (suc i) ]

unfoldable pub position_of : List String → String → Result ValidatorError ℕ
unfolding position
position_of order x = elim (position x order) [ none ↦ err key_error | some i ↦ ok i ]

-- `any(positions[approval] <= positions[output] for output in outputs)`
unfoldable pub approval_early :
    List String → String → List WorkflowNode → Result ValidatorError Bool
unfolding position_of
approval_early order a [] = ok false
approval_early order a (o ∷ os) =
    let rest = approval_early order a os in
    position_of order a >>= λ i. position_of order o.id >>= λ j. if leb i j then ok true else rest

unfoldable pub approval_issues :
    List String → List WorkflowNode → List WorkflowNode → Result ValidatorError (List WorkflowIssue)
unfolding approval_early issues_when
approval_issues order outputs (a ∷ []) =
    if is_empty outputs || is_empty order
    then ok []
    else (approval_early order a.id outputs >>= λ early.
        ok (issues_when early (node_issue "approval.order" a.id)))
approval_issues order outputs _ = ok (issue "approval.count" ∷ [])

-- `str.isalnum` of the language, a table of Unicode.
module _ (isalnum : String → Bool) where
  -- `isinstance(field, str) and ...isalnum()`
  unfoldable pub safe_value : Json → Bool
  unfolding without_separators
  safe_value (str s) = isalnum (without_separators s)
  safe_value _ = false

  unfoldable pub safe_field : Option Json → Bool
  unfolding safe_value
  safe_field none = false
  safe_field (some v) = safe_value v

  unfoldable pub condition_issues : WorkflowNode → Result ValidatorError (List WorkflowIssue)
  unfolding safe_field operator_known issues_when
  condition_issues n =
      let unsafe = not (safe_field (get "field" n.config)) in
      operator_known (get "operator" n.config) >>= λ known. ok (
        issues_when unsafe (node_issue "condition.field" n.id)
        ++ issues_when (not known) (node_issue "condition.operator" n.id))

  unfoldable pub node_issues : WorkflowNode → Result ValidatorError (List WorkflowIssue)
  unfolding condition_issues missing_config is_condition issues_when
  node_issues n =
      let missing =
        issues_when (not (is_empty (missing_config n))) (node_issue "node.missing_config" n.id) in
      if is_condition n.kind
      then (condition_issues n >>= λ more. ok (missing ++ more))
      else ok missing

  unfoldable pub all_node_issues : List WorkflowNode → Result ValidatorError (List WorkflowIssue)
  unfolding node_issues
  all_node_issues [] = ok []
  all_node_issues (n ∷ ns) =
      let rest = all_node_issues ns in
      node_issues n >>= λ here. rest >>= λ later. ok (here ++ later)
