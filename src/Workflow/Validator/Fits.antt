-- ===== src/Workflow/Validator/Fits.antt =====
-- The loop over the edges, and the nodes at the ends of an edge.
use agenstfer_agi.Base.{
  String, ◌≡◌, refl, true, false, ◌||◌, Option, none, some, List, [], ◌∷◌, ◌++◌, arith, eq_iff, All,
  map,
}
use agenstfer_agi.Base.Dict.{Dict, get, put, keys, elem-keys-put, keys-of_get}
use agenstfer_agi.Base.Sets.{elem}
use agenstfer_agi.Workflow.Models.{WorkflowNode, WorkflowEdge, WorkflowDefinition}
use agenstfer_agi.Workflow.Catalog.{node_catalog}
use agenstfer_agi.Workflow.Validator.Edges.{is_edge}
use agenstfer_agi.Workflow.Validator.Links.{
  Scan, table_from, node_table, output_of, type_issues, link, scan_ends, scan_edge, scan_edges,
}
use agenstfer_agi.Workflow.Validator.Tables.{links, accepted}

-- Both ends are known, the source yields the edge's type and the target accepts it.
pub record Fits (table : Dict WorkflowNode) (e : WorkflowEdge) : Type 0 where
  pub source : WorkflowNode
  pub target : WorkflowNode
  pub at_source : get e.source table ≡ some source
  pub at_target : get e.target table ≡ some target
  pub yields : e.data_type ≡ output_of source
  pub accepts : elem e.data_type (node_catalog target.kind).accepted_inputs ≡ true

type_issues-nil :
    (e : WorkflowEdge) (a b : WorkflowNode)
    → type_issues e a b ≡ []
    → (e.data_type ≡ output_of a) × (elem e.data_type (node_catalog b.kind).accepted_inputs ≡ true)
unfolding type_issues
type_issues-nil e a b h = ground (arith, eq_iff e.data_type (output_of a))

append-nil_parts {ℓ} : {A : Type ℓ} (xs ys : List A) → xs ++ ys ≡ [] → (xs ≡ []) × (ys ≡ [])
append-nil_parts [] ys h = (refl, h)
append-nil_parts (x ∷ xs) ys h = cc

module _ (table : Dict WorkflowNode) where
  scan_ends-Fits :
      (s : Scan) (e : WorkflowEdge) (a b : Option WorkflowNode)
      → get e.source table ≡ a
      → get e.target table ≡ b
      → (scan_ends e a b s).issues ≡ []
      → (s.issues ≡ []) × Fits table e
  unfolding scan_ends link
  scan_ends-Fits s e (some a) (some b) p q h =
      let (none_before, none_here) = append-nil_parts s.issues (type_issues e a b) h in
      let (y, i) = type_issues-nil e a b none_here in
      (
        none_before,
        record { source = a; target = b; at_source = p; at_target = q; yields = y; accepts = i },
      )
  scan_ends-Fits s e none b p q h = let (p, q) = append-nil_parts s.issues _ h in cc
  scan_ends-Fits s e a none p q h = let (p, q) = append-nil_parts s.issues _ h in cc

  pub scan_edges-Fits :
      (s : Scan) (es : List WorkflowEdge)
      → (scan_edges table s es).issues ≡ []
      → (s.issues ≡ []) × All (Fits table) es
  unfolding scan_edges scan_edge
  scan_edges-Fits s [] h = (h, tt)
  scan_edges-Fits s (e ∷ es) h =
      let (here, rest) = scan_edges-Fits (scan_edge table s e) es h in
      let (before, fit) =
        scan_ends-Fits s e (get e.source table) (get e.target table) refl refl here in
      (before, (fit, rest))

  -- What holds of every pair that the tables keep holds of every edge that fits.
  pub links-All :
      (Q : String → String → Type 0) (es : List WorkflowEdge)
      → All (Fits table) es
      → ((s t : String) → is_edge s t (links table es) ≡ true → Q s t)
      → All (λ (e : WorkflowEdge). Q e.source e.target) es
  links-All Q [] h k = tt
  links-All Q (e ∷ es) h k =
      (k e.source e.target (first e h.0), links-All Q es h.1 (λ s t m. k s t (later s t m)))
    where
      first :
          (e : WorkflowEdge)
          → Fits table e
          → is_edge e.source e.target (links table (e ∷ es)) ≡ true
      first e f =
          unfold is_edge links accepted in
          ground (
            arith,
            keys-of_get e.source f.source table f.at_source,
            keys-of_get e.target f.target table f.at_target,
            eq_iff e.source e.source,
            eq_iff e.target e.target,
          )

      later :
          (s t : String)
          → is_edge s t (links table es) ≡ true
          → is_edge s t (links table (e ∷ es)) ≡ true
      later s t m = unfold is_edge links in ground arith

abbrev pub node_ids : WorkflowDefinition → List String
node_ids w = map (λ (n : WorkflowNode). n.id) w.nodes

elem-table_from :
    (x : String) (ns : List WorkflowNode) (d : Dict WorkflowNode)
    → elem x (keys (table_from ns d))
      ≡ (elem x (map (λ (n : WorkflowNode). n.id) ns) || elem x (keys d))
unfolding elem table_from
elem-table_from x [] d = refl
elem-table_from x (n ∷ ns) d =
    ground (arith, elem-table_from x ns (put n.id n d), elem-keys-put x n.id n d)

pub elem-node_table :
    (x : String) (w : WorkflowDefinition) → elem x (keys (node_table w.nodes)) ≡ elem x (node_ids w)
unfolding node_table
elem-node_table x w = ground (arith, elem-table_from x w.nodes [], empty x)
  where
    empty : (x : String) → elem x (keys {V = WorkflowNode} []) ≡ false
    empty x = unfold keys elem in refl
