-- ===== src/Workflow/Validator/Raises.antt =====
-- The exceptions that leave validate_workflow in place of a report.
use agenstfer_agi.Base.{
  ℕ, ◌≤◌, ◌==◌, sym, ◌∙◌, true, Bool-cases, Option-cases, inl, inr, false≢true, String, ◌≡◌, ◌≢◌,
  refl, Bool, false, Option, none, some, List, [], ◌∷◌, arith, Result, ok, err, ◌>>=◌, is_empty,
}
use agenstfer_agi.Base.Dict.{get, keys}
use agenstfer_agi.Base.Sets.{elem, Distinct}
use agenstfer_agi.Json.{Json}
use agenstfer_agi.Workflow.Models.{WorkflowNode, WorkflowDefinition, WorkflowIssue}
use agenstfer_agi.Workflow.Validator.Order.{find_order_lem}
use agenstfer_agi.Workflow.Validator.Gate.{walk_trigger}
use agenstfer_agi.Workflow.Validator.Position.{position-none, Topo-Precedes, position-of_elem}
use agenstfer_agi.Workflow.Validator.Edges.{Edges, is_edge, open_source}
use agenstfer_agi.Workflow.Validator.Kahn.{Done, Topo}
use agenstfer_agi.Workflow.Validator.Walk.{Reaches, here, along}
use agenstfer_agi.Workflow.Validator.Order.{table_of, links_of}
use agenstfer_agi.Workflow.Validator.{
  triggers, outputs, approvals, scan, find_order, report_unreached, reach_issues, order_issues,
  validate_order, validate_workflow,
}
use agenstfer_agi.Workflow.Validator.Checks.{
  position, ValidatorError, key_error, type_error, out_of_fuel, position_of, operator_known,
  condition_issues, node_issues, all_node_issues, approval_early, approval_issues,
}

abbrev Ends {ℓ} : {A : Type ℓ} → Result ValidatorError A → Type ℓ
Ends r = r ≢ err out_of_fuel

bind-Ends {ℓ} :
    {A B : Type ℓ} (m : Result ValidatorError A) (f : A → Result ValidatorError B)
    → Ends m
    → ((a : A) → Ends (f a))
    → Ends (m >>= f)
bind-Ends (ok a) f h k = k a
bind-Ends (err key_error) f h k = λ e. cc
bind-Ends (err type_error) f h k = λ e. cc
bind-Ends (err out_of_fuel) f h k = absurd (h refl)

position_of-Ends : (order : List String) (x : String) → Ends (position_of order x)
unfolding position_of
position_of-Ends order x e = ground arith

approval_early-Ends :
    (order : List String) (a : String) (os : List WorkflowNode) → Ends (approval_early order a os)
unfolding approval_early
approval_early-Ends order a [] = λ e. cc
approval_early-Ends order a (o ∷ os) =
    bind-Ends (position_of order a) _ (position_of-Ends order a) λ i.
      bind-Ends (position_of order o.id) _ (position_of-Ends order o.id)
        λ j e. ground (arith, approval_early-Ends order a os)

approval_issues-Ends :
    (order : List String) (os l : List WorkflowNode) → Ends (approval_issues order os l)
unfolding approval_issues
approval_issues-Ends order os [] e = cc
approval_issues-Ends order os (a ∷ b ∷ l) e = cc
approval_issues-Ends order os (a ∷ []) e = ground (arith, approval_early-Ends order a.id os)

operator_known-Ends : (o : Option Json) → Ends (operator_known o)
unfolding operator_known
operator_known-Ends none e = cc
operator_known-Ends (some v) e = ground arith

module _ (isalnum : String → Bool) where
  node_issues-Ends : (n : WorkflowNode) → Ends (node_issues isalnum n)
  unfolding node_issues condition_issues
  node_issues-Ends n e = ground (arith, operator_known-Ends (get "operator" n.config))

  all_node_issues-Ends : (ns : List WorkflowNode) → Ends (all_node_issues isalnum ns)
  unfolding all_node_issues
  all_node_issues-Ends [] = λ e. cc
  all_node_issues-Ends (n ∷ ns) =
      bind-Ends (node_issues isalnum n) _ (node_issues-Ends n)
        λ here. bind-Ends (all_node_issues isalnum ns) _ (all_node_issues-Ends ns) (λ later e. cc)

reach_issues-Ends :
    (w : WorkflowDefinition) (ts : List WorkflowNode) → Ends (reach_issues w (scan w).outgoing ts)
unfolding reach_issues report_unreached
reach_issues-Ends w [] e = cc
reach_issues-Ends w (t ∷ ts) e = let (result, p, r) = walk_trigger w t in ground arith

order_issues-Ends :
    (w : WorkflowDefinition) (before : List WorkflowIssue) (order : List String)
    → Ends (order_issues w before (scan w).outgoing order)
unfolding order_issues
order_issues-Ends w before order =
    bind-Ends (reach_issues w (scan w).outgoing (triggers w)) _ (reach_issues-Ends w (triggers w))
      λ u.
        bind-Ends (approval_issues order (outputs w) (approvals w)) _
          (approval_issues-Ends order (outputs w) (approvals w)) (λ l e. cc)

-- Both loops of validation end within the rounds that the model gives them, for every workflow.
pub validate_workflow_ends :
    (isalnum : String → Bool) (w : WorkflowDefinition)
    → validate_workflow isalnum w ≢ err out_of_fuel
unfolding validate_workflow
validate_workflow_ends isalnum w =
    let (order, found, d) = find_order_lem w in
    bind-Ends (all_node_issues isalnum w.nodes) _ (all_node_issues-Ends isalnum w.nodes) λ of_nodes.
      rw (found, validate_order)
        (bind-Ends (order_issues w _ (scan w).outgoing order) _ (order_issues-Ends w _ order)
          (λ issues e. cc))

approval_missing :
    (order : List String) (a : WorkflowNode) (os : List WorkflowNode)
    → is_empty order ≡ false
    → is_empty os ≡ false
    → elem a.id order ≡ false
    → approval_issues order os (a ∷ []) ≡ err key_error
unfolding approval_issues approval_early position_of
approval_missing order a [] n m h = cc
approval_missing order a (o ∷ os) n m h = ground (arith, position-none a.id order h)

reported :
    (w : WorkflowDefinition) (result : List String)
    → (u : List WorkflowIssue) × (report_unreached w (some result) ≡ ok u)
unfolding report_unreached
reported w result = (_, refl)

reach_issues-ok :
    (w : WorkflowDefinition) (ts : List WorkflowNode)
    → (u : List WorkflowIssue) × (reach_issues w (scan w).outgoing ts ≡ ok u)
unfolding reach_issues report_unreached
reach_issues-ok w [] = ([], refl)
reach_issues-ok w (t ∷ ts) =
    let (result, p, r) = walk_trigger w t in
    let (u, q) = reported w result in (u, rw (p, report_unreached) q)

missing_raises :
    (isalnum : String → Bool) (w : WorkflowDefinition) (of_nodes : List WorkflowIssue)
    (order : List String) (a : WorkflowNode)
    → all_node_issues isalnum w.nodes ≡ ok of_nodes
    → find_order w (scan w) ≡ some order
    → is_empty order ≡ false
    → approvals w ≡ a ∷ []
    → is_empty (outputs w) ≡ false
    → elem a.id order ≡ false
    → validate_workflow isalnum w ≡ err key_error
unfolding validate_workflow validate_order order_issues
missing_raises isalnum w of_nodes order a n f m one out missing =
    let (u, r) = reach_issues-ok w (triggers w) in
    rw (n, f, validate_order) (rw (r, one, approval_missing order a (outputs w) m out missing) refl)

elem-of_position :
    (x : String) (xs : List String) (i : ℕ) → position x xs ≡ some i → elem x xs ≡ true
unfolding elem position
elem-of_position x [] i h = cc
elem-of_position x (y ∷ ys) i h = elim (Bool-cases (y == x)) [
  | inl e ↦ rw e refl
  | inr e ↦ elim (Option-cases (position x ys)) [
    | inl p ↦ absurd (let h' = rw (e, p) at h in cc)
    | inr (j, p) ↦ rw e (elem-of_position x ys j p)
  ]
]

module _ (es : Edges) (order : List String) (topo : Topo es [] order)
    (distinct : Distinct order) where
  -- What leads to a member of the order is a member, at the same place or an earlier one.
  before_member :
      (x y : String) (j : ℕ)
      → Reaches es x y
      → position y order ≡ some j
      → (i : ℕ) × (position x order ≡ some i) × (i ≤ j)
  before_member x y j here p = (j, p, omega arith)
  before_member x y j (along {b = b} path edge) p =
      let f = Topo-Precedes es [] order b y topo distinct (elem-of_position y order j p) edge in
      let (i, q, low) = before_member x b f.i path f.at_source in
      let same : some f.j ≡ some j = sym f.at_target ∙ p in
      let is_j : f.j ≡ j = cc in (i, q, omega (arith, f.earlier))

  no_cycle_member :
      (c y a : String)
      → is_edge c y es ≡ true
      → Reaches es y c
      → Reaches es c a
      → elem a order ≡ false
  no_cycle_member c y a edge back path = elim (Bool-cases (elem a order)) [
    | inr e ↦ e
    | inl e ↦
        let (k, at_a) = position-of_elem a order e in
        let (j, at_c, low) = before_member c a k path at_a in
        let (i, at_y, lower) = before_member y c j back at_c in
        let f =
          Topo-Precedes es [] order c y topo distinct (elem-of_position y order i at_y) edge in
        let from_c : some f.i ≡ some j = sym f.at_source ∙ at_c in
        let from_y : some f.j ≡ some i = sym f.at_target ∙ at_y in
        let is_j : f.i ≡ j = cc in let is_i : f.j ≡ i = cc in absurd (omega (arith, f.earlier))
  ]

root_ordered :
    (w : WorkflowDefinition) (order : List String) (r : String)
    → Done (links_of w) (keys (table_of w)) order
    → elem r (keys (table_of w)) ≡ true
    → ((s : String) → is_edge s r (links_of w) ≡ false)
    → is_empty order ≡ false
unfolding elem
root_ordered w [] r d known root =
    let (s, edge, out) = open_source [] r (links_of w) (d.blocked r known refl) in
    absurd (false≢true (sym (root s) ∙ edge))
root_ordered w (x ∷ order) r d known root = refl

-- If the one approval lies on a cycle or behind one (`c` has an edge to `y`, from which the accepted
-- edges lead back to `c`, and from `c` to the approval), some known node has no incoming edge, there
-- is a report and the configuration of the nodes raises nothing, then validation raises a KeyError
-- and reports nothing.
pub cycle_raises :
    (isalnum : String → Bool) (w : WorkflowDefinition) (of_nodes : List WorkflowIssue)
    → (a : WorkflowNode) (c y r : String) → is_edge c y (links_of w) ≡ true
    → Reaches (links_of w) y c
    → Reaches (links_of w) c a.id
    → elem r (keys (table_of w)) ≡ true
    → ((s : String) → is_edge s r (links_of w) ≡ false)
    → approvals w ≡ a ∷ []
    → is_empty (outputs w) ≡ false
    → all_node_issues isalnum w.nodes ≡ ok of_nodes
    → validate_workflow isalnum w ≡ err key_error
cycle_raises isalnum w of_nodes a c y r edge back path known root one out n =
    let (order, found, d) = find_order_lem w in
    missing_raises isalnum w of_nodes order a n found (root_ordered w order r d known root) one out
      (no_cycle_member (links_of w) order d.topo d.distinct c y a.id edge back path)
