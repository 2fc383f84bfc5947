-- ===== src/Workflow/Validator/Valid.antt =====
-- The order and the edges of a valid workflow, which the runtimes follow node by node.
use agenstfer_agi.Base.{String, ◌≡◌, Bool, true, some, List, [], arith, All, ok}
use agenstfer_agi.Base.Dict.{keys}
use agenstfer_agi.Base.Sets.{elem, Distinct, Subset, Subset-of_length}
use agenstfer_agi.Workflow.Models.{WorkflowEdge, WorkflowDefinition, WorkflowValidation}
use agenstfer_agi.Workflow.Validator.Links.{node_table}
use agenstfer_agi.Workflow.Validator.Edges.{is_edge, target-of_edge}
use agenstfer_agi.Workflow.Validator.Kahn.{Done}
use agenstfer_agi.Workflow.Validator.Tables.{targets-known}
use agenstfer_agi.Workflow.Validator.Order.{table_of, links_of, find_order_lem}
use agenstfer_agi.Workflow.Validator.Position.{Precedes, Topo-Precedes}
use agenstfer_agi.Workflow.Validator.Fits.{
  Fits, scan_edges-Fits, links-All, node_ids, elem-node_table,
}
use agenstfer_agi.Workflow.Validator.Clean.{valid-IsClean}
use agenstfer_agi.Workflow.Validator.{start_scan, scan, find_order, validate_workflow}

pub record IsOrdered (w : WorkflowDefinition) (order : List String) : Type 0 where
  pub distinct : Distinct order
  pub complete : (x : String) → elem x order ≡ elem x (node_ids w)
  pub forward : All (λ (e : WorkflowEdge). Precedes order e.source e.target) w.edges

-- The order that the loop finds has what `Done` says.
pub found-Done :
    (w : WorkflowDefinition) (order : List String)
    → find_order w (scan w) ≡ some order
    → Done (links_of w) (keys (table_of w)) order
found-Done w order h =
    let (found, p, d) = find_order_lem w in let same : found ≡ order = ground arith in rw (← same) d

pub edge-Precedes :
    (w : WorkflowDefinition) (order : List String)
    → Done (links_of w) (keys (table_of w)) order
    → Subset (keys (table_of w)) order
    → (s t : String) → is_edge s t (links_of w) ≡ true
    → Precedes order s t
edge-Precedes w order d all s t e =
    Topo-Precedes (links_of w) [] order s t d.topo d.distinct
      (all t (targets-known (table_of w) w.edges s t (target-of_edge s t (links_of w) e))) e

-- If validation reports no issue, each node stands in the order exactly once, and every edge leads
-- from an earlier place to a later one.
pub valid_order :
    (isalnum : String → Bool) (w : WorkflowDefinition) (v : WorkflowValidation)
    → validate_workflow isalnum w ≡ ok v
    → v.valid ≡ true
    → IsOrdered w v.topological_order
valid_order isalnum w v h e =
    let c = valid-IsClean isalnum w v h e in
    let d = found-Done w v.topological_order c.found in
    let all =
      Subset-of_length v.topological_order (keys (table_of w)) d.distinct d.known
        (omega (arith, c.all_ordered)) in
    record {
      distinct = d.distinct;
      complete = λ x. ground (arith, d.known x, all x, elem-node_table x w);
      forward =
          links-All (table_of w) (Precedes v.topological_order) w.edges
            (scan_edges-Fits (table_of w) (start_scan w) w.edges (unfold scan in c.edges_clean)).1
            (edge-Precedes w v.topological_order d all);
    }

-- If validation reports no issue, every edge joins two known nodes, the source's declared or
-- default output is the edge's type, and the target's kind accepts that type.
pub valid_edges :
    (isalnum : String → Bool) (w : WorkflowDefinition) (v : WorkflowValidation)
    → validate_workflow isalnum w ≡ ok v
    → v.valid ≡ true
    → All (Fits (node_table w.nodes)) w.edges
unfolding scan
valid_edges isalnum w v h e =
    (scan_edges-Fits (table_of w) (start_scan w) w.edges
      (valid-IsClean isalnum w v h e).edges_clean).1
