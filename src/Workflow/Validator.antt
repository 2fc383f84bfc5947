-- ===== src/Workflow/Validator.antt =====
-- workflow/validator.py: the issues in the order in which validate_workflow reports them.
pub mod Graph
pub mod Checks
pub mod Links
pub mod Edges
pub mod Kahn
pub mod Walk
pub mod Tables
pub mod Order
pub mod Position
pub mod Fits
pub mod Clean
pub mod Valid
pub mod Cycles
pub mod Gate
pub mod Raises
mod Samples
use Prim.Native.Char.{code}
use agenstfer_agi.Base.{
  ℕ, suc, ◌+◌, String, Bool, true, false, ◌&&◌, ◌||◌, not, Option, none, some, List, [], ◌∷◌, ◌++◌,
  map, if◌then◌else◌, nat_beq, ltb, leb, length, any, select, is_empty, ◌==◌, Result, ok, err,
  ◌>>=◌,
}
use agenstfer_agi.Base.Dict.{Dict, get, put, keys}
use agenstfer_agi.Base.Sets.{elem}
use agenstfer_agi.Base.Sort.{sorted}
use agenstfer_agi.Json.{Json, null, bool, num, str, arr, obj}
use agenstfer_agi.Workflow.Models.{
  NodeKind, manual_trigger, onboarding_trigger, schedule_trigger, condition, approval,
  report_output, WorkflowNode, WorkflowEdge, WorkflowDefinition, WorkflowIssue, WorkflowValidation,
}
use agenstfer_agi.Workflow.Catalog.{node_catalog}
use Graph.{kahn, walk}
use Links.{Scan, scan_edges, node_table, zero_degrees}
use Checks.{
  is_trigger, is_condition, is_approval, is_report, issue, node_issue, issues_when, is_blank,
  missing_config, operator_known, without_separators, is_false_true, branch_labels, branch_issues,
  all_branch_issues, position, position_of, approval_early, approval_issues, safe_field,
  condition_issues, node_issues, all_node_issues, ValidatorError, key_error, type_error,
  out_of_fuel,
}

unfoldable pub orphan_issues : List String → List WorkflowIssue
orphan_issues [] = []
orphan_issues (x ∷ xs) = node_issue "graph.unreachable" x ∷ orphan_issues xs

-- `sorted(set(nodes) - reachable)`, reported one by one.
unfoldable pub report_unreached :
    WorkflowDefinition → Option (List String) → Result ValidatorError (List WorkflowIssue)
unfolding orphan_issues
report_unreached w none = err out_of_fuel
report_unreached w (some reachable) =
    ok (orphan_issues (sorted (select (λ x. not (elem x reachable)) (keys (node_table w.nodes)))))

-- The walk visits each edge at most once, so one more round than there are edges is enough.
unfoldable pub reach_issues :
    WorkflowDefinition
    → Dict (List String)
    → List WorkflowNode
    → Result ValidatorError (List WorkflowIssue)
unfolding report_unreached
reach_issues w outgoing [] = ok []
reach_issues w outgoing (t ∷ ts) =
    report_unreached w (walk (suc (length w.edges)) outgoing (t.id ∷ []) [])

-- The ids whose in-degree is 0, in the order of the table.
unfoldable pub roots : Dict ℕ → List String
roots [] = []
roots ((x, n) ∷ d) = let rest = roots d in if nat_beq n 0 then x ∷ rest else rest

-- `deque(sorted(...))` of the nodes that no edge enters, then the loop. Each node is taken at most
-- once, so as many rounds as there are nodes are enough.
unfoldable pub find_order : WorkflowDefinition → Scan → Option (List String)
unfolding roots
find_order w s =
    kahn (length (keys (node_table w.nodes))) s.outgoing (sorted (roots s.indegree)) [] s.indegree

unfoldable pub start_scan : WorkflowDefinition → Scan
start_scan w = record {
  issues = [];
  outgoing = [];
  incoming = [];
  indegree = zero_degrees w.nodes [];
}

unfoldable pub scan : WorkflowDefinition → Scan
unfolding start_scan
scan w = scan_edges (node_table w.nodes) (start_scan w) w.edges

unfoldable pub triggers : WorkflowDefinition → List WorkflowNode
unfolding is_trigger
triggers w = select (λ (n : WorkflowNode). is_trigger n.kind) w.nodes

unfoldable pub outputs : WorkflowDefinition → List WorkflowNode
unfolding is_report
outputs w = select (λ (n : WorkflowNode). is_report n.kind) w.nodes

unfoldable pub approvals : WorkflowDefinition → List WorkflowNode
unfolding is_approval
approvals w = select (λ (n : WorkflowNode). is_approval n.kind) w.nodes

-- The issues that depend on the order: a cycle, what is not reached, no output, the approval.
unfoldable pub order_issues :
    WorkflowDefinition
    → List WorkflowIssue
    → Dict (List String)
    → List String
    → Result ValidatorError (List WorkflowIssue)
unfolding issues_when
order_issues w before outgoing order =
    let count_ok = nat_beq (length order) (length (keys (node_table w.nodes))) in
    reach_issues w outgoing (triggers w) >>= λ unreached.
    approval_issues order (outputs w) (approvals w) >>= λ late. ok (
      before
      ++ (issues_when (not count_ok) (issue "graph.cycle")
          ++ (unreached ++ (issues_when (is_empty (outputs w)) (issue "output.missing") ++ late))))

unfoldable pub validate_order :
    WorkflowDefinition
    → List WorkflowIssue
    → Dict (List String)
    → Option (List String)
    → Result ValidatorError WorkflowValidation
unfolding order_issues
validate_order w before outgoing none = err out_of_fuel
validate_order w before outgoing (some order) = order_issues w before outgoing order >>= λ issues.
    ok (record { valid = is_empty issues; issues = issues; topological_order = order })

-- `str.isalnum` of the language, a table of Unicode.
module _ (isalnum : String → Bool) where
  -- The whole function.
  unfoldable pub validate_workflow : WorkflowDefinition → Result ValidatorError WorkflowValidation
  unfolding all_node_issues validate_order scan find_order all_branch_issues triggers issues_when
  validate_workflow w =
      let s = scan w in
      all_node_issues isalnum w.nodes >>= λ of_nodes.
      validate_order w
        (issues_when (not (nat_beq (length (triggers w)) 1)) (issue "trigger.count")
          ++ (of_nodes ++ (s.issues ++ all_branch_issues w.edges w.nodes)))
        s.outgoing (find_order w s)
