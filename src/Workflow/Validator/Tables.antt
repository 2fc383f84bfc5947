-- ===== src/Workflow/Validator/Tables.antt =====
-- The tables of validate_workflow hold the edges whose ends are both known.
use mathlib.Core.List.{append_assoc, append-nil}
use agenstfer_agi.Base.{
  ◌+◌, String, ◌≡◌, refl, ◌∙◌, Bool, true, false, ◌&&◌, some, List, [], ◌∷◌, ◌++◌, arith,
  if◌then◌else◌, ◌==◌, eq_iff, Option-cases, inl, inr,
}
use agenstfer_agi.Base.Dict.{
  Dict, get, put, keys, get-put, Distinct-keys-put, keys-of_get, keys-of_none,
}
use agenstfer_agi.Base.Sets.{elem, Distinct, Subset}
use agenstfer_agi.Workflow.Models.{WorkflowNode, WorkflowEdge, WorkflowIssue}
use agenstfer_agi.Workflow.Validator.Graph.{successors, degree}
use agenstfer_agi.Workflow.Validator.Links.{
  Scan, table_from, node_table, append_to, link, scan_edge, scan_edges,
}
use agenstfer_agi.Workflow.Validator.Edges.{Edges, targets, open_into, is_edge}
use agenstfer_agi.Workflow.Validator.Kahn.{degree-put}

-- Both ends of the edge are nodes of the table.
unfoldable pub accepted : Dict WorkflowNode → WorkflowEdge → Bool
accepted table e = elem e.source (keys table) && elem e.target (keys table)

-- The edges that the loop keeps, as pairs of ids.
unfoldable pub links : Dict WorkflowNode → List WorkflowEdge → Edges
links table [] = []
links table (e ∷ es) =
    let rest = links table es in if accepted table e then (e.source, e.target) ∷ rest else rest

-- A node stands under its own id.
abbrev IsKeyed : Dict WorkflowNode → Type 0
IsKeyed table = (k : String) (n : WorkflowNode) → get k table ≡ some n → n.id ≡ k

table_from-IsKeyed :
    (ns : List WorkflowNode) (d : Dict WorkflowNode) → IsKeyed d → IsKeyed (table_from ns d)
unfolding table_from
table_from-IsKeyed [] d h = h
table_from-IsKeyed (n ∷ ns) d h =
    table_from-IsKeyed ns (put n.id n d)
      λ k m e. ground (arith, get-put n.id k n d, h k m, eq_iff n.id k)

pub node_table-IsKeyed : (ns : List WorkflowNode) → IsKeyed (node_table ns)
unfolding node_table get
node_table-IsKeyed ns = table_from-IsKeyed ns [] (λ k n e. cc)

successors-append_to :
    (d : Dict (List String)) (k v x : String)
    → successors (append_to d k v) x ≡ (if k == x then successors d x ++ v ∷ [] else successors d x)
unfolding successors append_to
successors-append_to d k v x = ground (arith, get-put k x (successors d k ++ v ∷ []) d, eq_iff k x)

-- One edge, as the tables show it: both ends known, or not.
module _ (table : Dict WorkflowNode) (keyed : IsKeyed table) (s : Scan) (e : WorkflowEdge)
    (x : String) where
  abbrev Shown : Scan → Type 0
  Shown s' =
      (successors s'.outgoing x ≡ successors s.outgoing x ++ targets x (links table (e ∷ [])))
      × (degree s'.indegree x ≡ degree s.indegree x + open_into [] x (links table (e ∷ [])))

  Shown-known :
      (a b : WorkflowNode)
      → get e.source table ≡ some a
      → get e.target table ≡ some b
      → Shown (link e a b s)
  unfolding link targets links accepted open_into elem
  Shown-known a b p q = (
    ground (
      arith,
      keys-of_get e.source a table p,
      keys-of_get e.target b table q,
      keyed e.source a p,
      keyed e.target b q,
      successors-append_to s.outgoing a.id b.id x,
      append-nil (successors s.outgoing x),
    ),
    ground (
      arith,
      keys-of_get e.source a table p,
      keys-of_get e.target b table q,
      keyed e.target b q,
      degree-put b.id x (degree s.indegree b.id + 1) s.indegree,
      eq_iff b.id x,
    ),
  )

  Shown-unknown :
      accepted table e ≡ false → (is : List WorkflowIssue) → Shown (record s { issues = is })
  unfolding targets links open_into
  Shown-unknown h is = rw h (rw append-nil refl, omega arith)

  scan_edge-Shown : Shown (scan_edge table s e)
  unfolding scan_edge accepted
  scan_edge-Shown = elim (Option-cases (get e.source table)) [
    | inl p ↦ rw p (Shown-unknown (ground (arith, keys-of_none e.source table p)) s.issues)
    | inr (a, p) ↦ elim (Option-cases (get e.target table)) [
      | inl q ↦ rw (p, q) (Shown-unknown (ground (arith, keys-of_none e.target table q)) s.issues)
      | inr (b, q) ↦ rw (p, q) (Shown-known a b p q)
    ]
  ]

targets-cons :
    (table : Dict WorkflowNode) (e : WorkflowEdge) (es : List WorkflowEdge) (x : String)
    → targets x (links table (e ∷ es))
      ≡ targets x (links table (e ∷ [])) ++ targets x (links table es)
unfolding targets links
targets-cons table e es x = ground arith

open_into-cons :
    (table : Dict WorkflowNode) (e : WorkflowEdge) (es : List WorkflowEdge) (x : String)
    → open_into [] x (links table (e ∷ es))
      ≡ open_into [] x (links table (e ∷ [])) + open_into [] x (links table es)
unfolding open_into links
open_into-cons table e es x = ground arith

module _ (table : Dict WorkflowNode) (keyed : IsKeyed table) (x : String) where
  pub successors-scan_edges :
      (s : Scan) (es : List WorkflowEdge)
      → successors (scan_edges table s es).outgoing x
        ≡ successors s.outgoing x ++ targets x (links table es)
  unfolding scan_edges
  successors-scan_edges s [] = unfold links targets in (rw append-nil refl)
  successors-scan_edges s (e ∷ es) =
      successors-scan_edges (scan_edge table s e) es
      ∙ rw ((scan_edge-Shown table keyed s e x).0, targets-cons table e es x, append_assoc) refl

  pub degree-scan_edges :
      (s : Scan) (es : List WorkflowEdge)
      → degree (scan_edges table s es).indegree x
        ≡ degree s.indegree x + open_into [] x (links table es)
  unfolding scan_edges
  degree-scan_edges s [] = unfold links open_into in (omega arith)
  degree-scan_edges s (e ∷ es) = omega (
    arith,
    degree-scan_edges (scan_edge table s e) es,
    (scan_edge-Shown table keyed s e x).1,
    open_into-cons table e es x,
  )

-- Only known nodes are at the ends of the edges that are kept.
pub targets-known :
    (table : Dict WorkflowNode) (es : List WorkflowEdge) (x : String)
    → Subset (targets x (links table es)) (keys table)
unfolding targets links accepted elem
targets-known table [] x t h = cc
targets-known table (e ∷ es) x t h = ground (arith, targets-known table es x t, eq_iff e.target t)

pub edge-of_accepted :
    (table : Dict WorkflowNode) (es : List WorkflowEdge) (s t : String)
    → is_edge s t (links table es) ≡ true
    → elem s (keys table) ≡ true
unfolding is_edge links accepted
edge-of_accepted table [] s t h = cc
edge-of_accepted table (e ∷ es) s t h =
    ground (arith, edge-of_accepted table es s t, eq_iff e.source s)

Distinct-keys-table_from :
    (ns : List WorkflowNode) (d : Dict WorkflowNode)
    → Distinct (keys d)
    → Distinct (keys (table_from ns d))
unfolding table_from
Distinct-keys-table_from [] d h = h
Distinct-keys-table_from (n ∷ ns) d h =
    Distinct-keys-table_from ns (put n.id n d) (Distinct-keys-put n.id n d h)

pub Distinct-keys-node_table : (ns : List WorkflowNode) → Distinct (keys (node_table ns))
unfolding node_table
Distinct-keys-node_table ns = Distinct-keys-table_from ns [] (unfold keys in tt)
