-- ===== src/Workflow/Validator/Cycles.antt =====
-- The cycle check of validate_workflow.
use agenstfer_agi.Base.{
  ℕ, zero, suc, ◌<◌, String, ◌≡◌, ◌↔◌, true, none, some, List, arith, length, Bool-cases, inl, inr,
}
use agenstfer_agi.Base.Dict.{keys}
use agenstfer_agi.Base.Sets.{elem, Subset-of_length, length-le-Subset}
use agenstfer_agi.Workflow.Models.{WorkflowDefinition}
use agenstfer_agi.Workflow.Validator.Edges.{is_edge, open_source}
use agenstfer_agi.Workflow.Validator.Kahn.{Done}
use agenstfer_agi.Workflow.Validator.Tables.{edge-of_accepted, Distinct-keys-node_table}
use agenstfer_agi.Workflow.Validator.Order.{table_of, links_of}
use agenstfer_agi.Workflow.Validator.Position.{Precedes}
use agenstfer_agi.Workflow.Validator.Valid.{found-Done, edge-Precedes}
use agenstfer_agi.Workflow.Validator.{scan, find_order}
use agenstfer_agi.Workflow.Validator.Checks.{position}

-- A ranking of the ids that every accepted edge raises: the graph has no cycle.
abbrev pub IsAcyclic : WorkflowDefinition → Type 0
IsAcyclic w =
    (rank : String → ℕ) × ((s t : String) → is_edge s t (links_of w) ≡ true → rank s < rank t)

-- No node is blocked: its open edge would start at a blocked node of smaller rank.
ranked-ordered :
    (w : WorkflowDefinition) (order : List String)
    → Done (links_of w) (keys (table_of w)) order
    → (a : IsAcyclic w) (n : ℕ) (x : String) → a.0 x < n
    → elem x (keys (table_of w)) ≡ true
    → elem x order ≡ true
ranked-ordered w order d a zero x b k = absurd (omega arith)
ranked-ordered w order d a (suc n) x b k = elim (Bool-cases (elem x order)) [
  | inl e ↦ e
  | inr e ↦
      let (s, edge, out) = open_source order x (links_of w) (d.blocked x k e) in
      cc (
        ranked-ordered w order d a n s (omega (arith, a.1 s x edge))
          (edge-of_accepted (table_of w) w.edges s x edge))
]

place : List String → String → ℕ
place order x = elim (position x order) [ none ↦ 0 | some i ↦ i ]

place-Precedes :
    (order : List String) (s t : String) → Precedes order s t → place order s < place order t
unfolding place
place-Precedes order s t p = ground arith

-- The order that the loop finds has as many nodes as the graph exactly if the graph has no cycle,
-- that is if some ranking of the ids grows along every edge between known nodes.
pub IsAcyclic-iff :
    (w : WorkflowDefinition) (order : List String)
    → find_order w (scan w) ≡ some order
    → (length order ≡ length (keys (table_of w))) ↔ IsAcyclic w
IsAcyclic-iff w order h =
    let d = found-Done w order h in
    (
      λ same. (
        place order,
        λ s t e. place-Precedes order s t (
            edge-Precedes w order d
              (Subset-of_length order (keys (table_of w)) d.distinct d.known (omega arith)) s t e),
      ),
      λ a. omega (
        arith,
        length-le-Subset order (keys (table_of w)) d.distinct d.known,
        length-le-Subset (keys (table_of w)) order (Distinct-keys-node_table w.nodes)
            (λ x k. ranked-ordered w order d a (suc (a.0 x)) x (omega arith) k),
      ),
    )
