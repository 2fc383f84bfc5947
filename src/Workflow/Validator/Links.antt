-- ===== src/Workflow/Validator/Links.antt =====
-- The tables that validate_workflow builds from the nodes and the edges.
use agenstfer_agi.Base.{
  ℕ, ◌+◌, String, Option, none, some, List, [], ◌∷◌, ◌++◌, if◌then◌else◌, ◌==◌,
}
use agenstfer_agi.Base.Dict.{Dict, get, put}
use agenstfer_agi.Base.Sets.{elem}
use agenstfer_agi.Workflow.Models.{WorkflowNode, WorkflowEdge, WorkflowIssue}
use agenstfer_agi.Workflow.Catalog.{node_catalog}
use agenstfer_agi.Workflow.Validator.Graph.{successors, degree}

-- `{node.id: node for node in workflow.nodes}`
unfoldable pub table_from : List WorkflowNode → Dict WorkflowNode → Dict WorkflowNode
table_from [] d = d
table_from (n ∷ ns) d = table_from ns (put n.id n d)

unfoldable pub node_table : List WorkflowNode → Dict WorkflowNode
unfolding table_from
node_table ns = table_from ns []

-- `{node.id: 0 for node in workflow.nodes}`
unfoldable pub zero_degrees : List WorkflowNode → Dict ℕ → Dict ℕ
zero_degrees [] d = d
zero_degrees (n ∷ ns) d = zero_degrees ns (put n.id 0 d)

abbrev edge_issue : String → String → WorkflowIssue
edge_issue c e = record { code = c; node_id = none; edge_id = some e }

-- What the loop over the edges writes.
pub record Scan : Type 0 where
  pub issues : List WorkflowIssue
  pub outgoing : Dict (List String)
  pub incoming : Dict (List String)
  pub indegree : Dict ℕ

-- `d[k].append(v)` in a `defaultdict(list)`
unfoldable pub append_to : Dict (List String) → String → String → Dict (List String)
append_to d k v = put k (successors d k ++ v ∷ []) d

unfoldable pub output_of : WorkflowNode → String
output_of n = elim n.output_type [
  | none ↦ (node_catalog n.kind).default_output
  | some t ↦ if t == "" then (node_catalog n.kind).default_output else t
]

unfoldable pub type_issues : WorkflowEdge → WorkflowNode → WorkflowNode → List WorkflowIssue
unfolding output_of
type_issues e source target =
    (if e.data_type == output_of source then [] else edge_issue "edge.source_type" e.id ∷ [])
    ++ (if elem e.data_type (node_catalog target.kind).accepted_inputs
        then []
        else edge_issue "edge.target_type" e.id ∷ [])

-- The body of the loop, for an edge whose ends are both known.
unfoldable pub link : WorkflowEdge → WorkflowNode → WorkflowNode → Scan → Scan
unfolding type_issues append_to
link e source target s = record {
  issues = s.issues ++ type_issues e source target;
  outgoing = append_to s.outgoing source.id target.id;
  incoming = append_to s.incoming target.id source.id;
  indegree = put target.id (degree s.indegree target.id + 1) s.indegree;
}

unfoldable pub scan_ends : WorkflowEdge → Option WorkflowNode → Option WorkflowNode → Scan → Scan
unfolding link
scan_ends e (some source) (some target) s = link e source target s
scan_ends e _ _ s = record s { issues = s.issues ++ edge_issue "edge.unknown_node" e.id ∷ [] }

unfoldable pub scan_edge : Dict WorkflowNode → Scan → WorkflowEdge → Scan
unfolding scan_ends
scan_edge table s e = scan_ends e (get e.source table) (get e.target table) s

unfoldable pub scan_edges : Dict WorkflowNode → Scan → List WorkflowEdge → Scan
unfolding scan_edge
scan_edges table s [] = s
scan_edges table s (e ∷ es) = scan_edges table (scan_edge table s e) es
