-- ===== src/Workflow/Validator/Order.antt =====
-- The topological order of validate_workflow, from its tables.
use agenstfer_agi.Base.{
  ℕ, String, ◌≡◌, refl, true, ◌&&◌, Option, none, some, List, [], ◌∷◌, ◌++◌, arith, ◌==◌, eq_iff,
  Bool-cases, inl, inr, length, nat_beq,
}
use agenstfer_agi.Base.Dict.{Dict, get, put, keys, elem-keys-put, Distinct-keys-put, keys-of_get}
use agenstfer_agi.Base.Sets.{elem, count, Distinct}
use agenstfer_agi.Base.Sort.{sorted, elem-sorted, Distinct-sorted}
use agenstfer_agi.Workflow.Models.{WorkflowNode, WorkflowEdge, WorkflowDefinition}
use agenstfer_agi.Workflow.Validator.Graph.{successors, degree}
use agenstfer_agi.Workflow.Validator.Links.{
  Scan, table_from, node_table, zero_degrees, link, scan_ends, scan_edge, scan_edges,
}
use agenstfer_agi.Workflow.Validator.Edges.{Edges, targets, open_into}
use agenstfer_agi.Workflow.Validator.Kahn.{degree-put, Inner, Done, kahn-Done}
use agenstfer_agi.Workflow.Validator.Tables.{
  links, node_table-IsKeyed, successors-scan_edges, degree-scan_edges, targets-known,
}
use agenstfer_agi.Workflow.Validator.{roots, find_order, start_scan, scan}

elem-roots :
    (x : String) (d : Dict ℕ)
    → Distinct (keys d)
    → elem x (roots d) ≡ (elem x (keys d) && nat_beq (degree d x) 0)
unfolding elem roots keys degree get
elem-roots x [] h = refl
elem-roots x ((y, n) ∷ d) h = elim (Bool-cases (y == x)) [
  | inl e ↦ ground (arith, elem-roots x d h.1, eq_iff y x)
  | inr e ↦ ground (arith, elem-roots x d h.1)
]

Distinct-roots : (d : Dict ℕ) → Distinct (keys d) → Distinct (roots d)
unfolding roots keys
Distinct-roots [] h = tt
Distinct-roots ((y, n) ∷ d) h = elim (Bool-cases (nat_beq n 0)) [
  | inl e ↦ rw e (rw (elem-roots y d h.1) (ground arith), Distinct-roots d h.1)
  | inr e ↦ rw e (Distinct-roots d h.1)
]

-- The degrees have the keys of the nodes, once each.
module _ (table : Dict WorkflowNode) where
  record Degrees (d : Dict ℕ) : Type 0 where
    same : (x : String) → elem x (keys d) ≡ elem x (keys table)
    distinct : Distinct (keys d)

  put-Degrees :
      (k : String) (n : ℕ) (d : Dict ℕ)
      → elem k (keys table) ≡ true
      → Degrees d
      → Degrees (put k n d)
  put-Degrees k n d m h = record {
    same = λ x. ground (arith, elem-keys-put x k n d, h.same x, eq_iff k x);
    distinct = Distinct-keys-put k n d h.distinct;
  }

  scan_ends-Degrees :
      ((k : String) (n : WorkflowNode) → get k table ≡ some n → n.id ≡ k)
      → (s : Scan) (e : WorkflowEdge) (a b : Option WorkflowNode) → get e.target table ≡ b
      → Degrees s.indegree
      → Degrees (scan_ends e a b s).indegree
  unfolding scan_ends link
  scan_ends-Degrees keyed s e (some a) (some b) q h =
      put-Degrees b.id _ s.indegree (rw (keyed e.target b q) (keys-of_get e.target b table q)) h
  scan_ends-Degrees keyed s e none b q h = h
  scan_ends-Degrees keyed s e a none q h = h

  scan_edges-Degrees :
      ((k : String) (n : WorkflowNode) → get k table ≡ some n → n.id ≡ k)
      → (s : Scan) (es : List WorkflowEdge) → Degrees s.indegree
      → Degrees (scan_edges table s es).indegree
  unfolding scan_edges scan_edge
  scan_edges-Degrees keyed s [] h = h
  scan_edges-Degrees keyed s (e ∷ es) h =
      scan_edges-Degrees keyed (scan_edge table s e) es
        (scan_ends-Degrees keyed s e (get e.source table) (get e.target table) refl h)

zero_degrees-Degrees :
    (ns : List WorkflowNode) (table : Dict WorkflowNode) (d : Dict ℕ)
    → Degrees table d
    → Degrees (table_from ns table) (zero_degrees ns d)
unfolding table_from zero_degrees
zero_degrees-Degrees [] table d h = h
zero_degrees-Degrees (n ∷ ns) table d h =
    zero_degrees-Degrees ns (put n.id n table) (put n.id 0 d) (record {
      same = λ x. ground (arith, elem-keys-put x n.id 0 d, elem-keys-put x n.id n table, h.same x);
      distinct = Distinct-keys-put n.id 0 d h.distinct;
    })

degree-zero_degrees :
    (ns : List WorkflowNode) (d : Dict ℕ) (x : String)
    → degree d x ≡ 0
    → degree (zero_degrees ns d) x ≡ 0
unfolding zero_degrees
degree-zero_degrees [] d x h = h
degree-zero_degrees (n ∷ ns) d x h =
    degree-zero_degrees ns (put n.id 0 d) x (ground (arith, degree-put n.id x 0 d))

abbrev pub table_of : WorkflowDefinition → Dict WorkflowNode
table_of w = node_table w.nodes

abbrev pub links_of : WorkflowDefinition → Edges
links_of w = links (table_of w) w.edges

module _ (w : WorkflowDefinition) where
  pub successors-scan : (x : String) → successors (scan w).outgoing x ≡ targets x (links_of w)
  unfolding scan start_scan successors get
  successors-scan x =
      successors-scan_edges (table_of w) (node_table-IsKeyed w.nodes) x (start_scan w) w.edges

  degree-scan : (x : String) → degree (scan w).indegree x ≡ open_into [] x (links_of w)
  unfolding scan start_scan
  degree-scan x = omega (
    arith,
    degree-scan_edges (table_of w) (node_table-IsKeyed w.nodes) x (start_scan w) w.edges,
    degree-zero_degrees w.nodes [] x (unfold degree get in refl),
  )

  scan-Degrees : Degrees (table_of w) (scan w).indegree
  unfolding scan start_scan node_table
  scan-Degrees =
      scan_edges-Degrees (table_of w) (node_table-IsKeyed w.nodes) (start_scan w) w.edges (
        zero_degrees-Degrees w.nodes [] []
          (unfold keys elem in (record { same = λ x. refl; distinct = tt })))

  start-Inner :
      Inner
        (links_of w)
        (keys (table_of w))
        []
        ([] ++ sorted (roots (scan w).indegree))
        []
        (scan w).indegree
  unfolding count
  start-Inner =
      let d = (scan w).indegree in
      let h = scan-Degrees in
      record {
        degrees = λ x. omega (arith, degree-scan x);
        ready = λ x m.
            ground (arith, elem-sorted x (roots d), elem-roots x d h.distinct, degree-scan x);
        waiting = λ x k m.
            ground
              (arith, elem-sorted x (roots d), elem-roots x d h.distinct, degree-scan x, h.same x);
        distinct = Distinct-sorted (roots d) (Distinct-roots d h.distinct);
        known = λ x m. ground (arith, elem-sorted x (roots d), elem-roots x d h.distinct, h.same x);
        targets_known = λ x m. unfold elem in cc;
      }

  -- The loop ends within its fuel.
  pub find_order_lem :
      (order : List String) × (find_order w (scan w) ≡ some order)
      × Done (links_of w) (keys (table_of w)) order
  unfolding find_order
  find_order_lem =
      kahn-Done (links_of w) (keys (table_of w)) (scan w).outgoing successors-scan
        (targets-known (table_of w) w.edges) (length (keys (table_of w))) []
        (sorted (roots (scan w).indegree)) (scan w).indegree (omega arith) start-Inner tt
