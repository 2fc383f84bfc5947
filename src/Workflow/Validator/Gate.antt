-- ===== src/Workflow/Validator/Gate.antt =====
-- The checks of validate_workflow on the trigger and on the approval.
use agenstfer_agi.Base.{
  suc, ◌≤◌, String, ◌≡◌, refl, ◌∙◌, Bool, true, false, not, some, List, [], ◌∷◌, map, arith, ◌==◌,
  eq_iff, All, Result, ok, length, Bool-cases, Option-cases, inl, inr, select, is_empty,
}
use agenstfer_agi.Base.Dict.{keys, Dict}
use agenstfer_agi.Base.Sets.{elem, elem-head, elem-tail}
use agenstfer_agi.Base.Sort.{sorted, elem-sorted}
use agenstfer_agi.Workflow.Models.{
  WorkflowNode, WorkflowEdge, WorkflowDefinition, WorkflowValidation, WorkflowIssue,
}
use agenstfer_agi.Workflow.Validator.Edges.{open_from-le}
use agenstfer_agi.Workflow.Validator.Graph.{walk}
use agenstfer_agi.Workflow.Validator.Tables.{links}
use agenstfer_agi.Workflow.Validator.Walk.{Reaches, Reached, walk_start}
use agenstfer_agi.Workflow.Validator.Order.{table_of, links_of, successors-scan}
use agenstfer_agi.Workflow.Validator.Position.{Precedes}
use agenstfer_agi.Workflow.Validator.Fits.{node_ids, elem-node_table}
use agenstfer_agi.Workflow.Validator.Clean.{valid-IsClean}
use agenstfer_agi.Workflow.Validator.Valid.{valid_order}
use agenstfer_agi.Workflow.Validator.{
  reach_issues, orphan_issues, report_unreached, triggers, outputs, approvals, scan,
  validate_workflow,
}
use agenstfer_agi.Workflow.Validator.Checks.{
  ValidatorError, position, position_of, approval_early, approval_issues, is_report, issues_when,
}

length-links_table :
    (table : Dict WorkflowNode) (es : List WorkflowEdge) → length (links table es) ≤ length es
unfolding links
length-links_table table [] = omega arith
length-links_table table (e ∷ es) = ground (arith, length-links_table table es)

-- The walk from the trigger ends within its fuel, with what the trigger reaches.
pub walk_trigger :
    (w : WorkflowDefinition) (t : WorkflowNode)
    → (result : List String) × (walk (suc (length w.edges)) (scan w).outgoing (t.id ∷ []) []
        ≡ some result)
      × Reached (links_of w) t.id result
walk_trigger w t =
    walk_start (links_of w) t.id (scan w).outgoing (successors-scan w) (suc (length w.edges))
      (omega (arith, open_from-le [] (links_of w), length-links_table (table_of w) w.edges))

elem-select :
    (p : String → Bool) (x : String) (xs : List String)
    → elem x xs ≡ true
    → p x ≡ true
    → elem x (select p xs) ≡ true
unfolding elem
elem-select p x [] h k = cc
elem-select p x (y ∷ ys) h k = elim (Bool-cases (y == x)) [
  | inl e ↦ let q : y ≡ x = (eq_iff y x).0 e in rw q (ground (arith, eq_iff x x))
  | inr e ↦ ground (arith, elem-select p x ys)
]

orphan-nil : (xs : List String) → orphan_issues xs ≡ [] → xs ≡ []
unfolding orphan_issues
orphan-nil [] h = refl
orphan-nil (x ∷ xs) h = cc

-- Nothing is reported as an orphan only if everything is reached.
no_orphans :
    (nodes reachable : List String)
    → orphan_issues (sorted (select (λ x. not (elem x reachable)) nodes)) ≡ []
    → (x : String) → elem x nodes ≡ true
    → elem x reachable ≡ true
no_orphans nodes reachable h x k = elim (Bool-cases (elem x reachable)) [
  | inl e ↦ e
  | inr e ↦
      let orphans = select (λ y. not (elem y reachable)) nodes in
      let found : elem x (sorted orphans) ≡ true =
        elem-sorted x orphans
        ∙ elem-select (λ y. not (elem y reachable)) x nodes k (ground arith) in
      let nothing : elem x [] ≡ true = rw (orphan-nil (sorted orphans) h) at found in
      unfold elem in cc
]

ok_nil :
    (l : List WorkflowIssue)
    → ◌≡◌ {A = Result ValidatorError (List WorkflowIssue)} (ok l) (ok [])
    → l ≡ []
ok_nil l q = cc

reach_issues-Reaches :
    (w : WorkflowDefinition) (t : WorkflowNode) (ts : List WorkflowNode)
    → reach_issues w (scan w).outgoing (t ∷ ts) ≡ ok []
    → (x : String) → elem x (keys (table_of w)) ≡ true
    → Reaches (links_of w) t.id x
unfolding reach_issues report_unreached
reach_issues-Reaches w t ts h x k =
    let (result, p, r) = walk_trigger w t in
    r.sound x (no_orphans (keys (table_of w)) result (ok_nil _ (rw (p, report_unreached) at h)) x k)

-- The one trigger of a workflow that validation accepts reaches every node by accepted edges.
pub valid_reached :
    (isalnum : String → Bool) (w : WorkflowDefinition) (v : WorkflowValidation)
    → validate_workflow isalnum w ≡ ok v
    → v.valid ≡ true
    → (t : WorkflowNode) × (triggers w ≡ t ∷ [])
      × ((x : String) → elem x (node_ids w) ≡ true → Reaches (links_of w) t.id x)
valid_reached isalnum w v h e =
    let c = valid-IsClean isalnum w v h e in
    let (t, one) = single (triggers w) (ground (arith, c.one_trigger)) in
    (
      t,
      one,
      λ x k. reach_issues-Reaches w t [] (rw one at c.all_reached) x (rw (elem-node_table x w) k),
    )
  where
    single : (l : List WorkflowNode) → length l ≡ 1 → (t : WorkflowNode) × (l ≡ t ∷ [])
    single [] q = absurd (omega arith)
    single (t ∷ []) q = (t, refl)
    single (t ∷ u ∷ l) q = absurd (omega arith)

approval_early-Precedes :
    (order : List String) (a : String) (os : List WorkflowNode)
    → approval_early order a os ≡ ok false
    → All (λ (o : WorkflowNode). Precedes order o.id a) os
unfolding approval_early position_of
approval_early-Precedes order a [] h = tt
approval_early-Precedes order a (o ∷ os) h = elim (Option-cases (position a order)) [
  | inl p ↦ absurd (ground arith)
  | inr (i, p) ↦ elim (Option-cases (position o.id order)) [
    | inl q ↦ absurd (ground arith)
    | inr (j, q) ↦ (
      record { i = j; j = i; at_source = q; at_target = p; earlier = ground arith },
      approval_early-Precedes order a os (ground arith),
    )
  ]
]

approval_issues-last :
    (order : List String) (os as' : List WorkflowNode)
    → is_empty os ≡ false
    → is_empty order ≡ false
    → approval_issues order os as' ≡ ok []
    → (a : WorkflowNode) × (as' ≡ a ∷ []) × All (λ (o : WorkflowNode). Precedes order o.id a.id) os
unfolding approval_issues issues_when
approval_issues-last order os [] n m h = cc
approval_issues-last order os (a ∷ b ∷ l) n m h = cc
approval_issues-last order os (a ∷ []) n m h =
    (a, refl, approval_early-Precedes order a.id os (ground arith))

elem-selected :
    (p : WorkflowNode → Bool) (ns : List WorkflowNode) (o : WorkflowNode) (os : List WorkflowNode)
    → select p ns ≡ o ∷ os
    → elem o.id (map (λ (n : WorkflowNode). n.id) ns) ≡ true
elem-selected p [] o os h = cc
elem-selected p (n ∷ ns) o os h = elim (Bool-cases (p n)) [
  | inl e ↦
      let same : n ≡ o = ground arith in
      rw (← same) (elem-head n.id (map (λ (n : WorkflowNode). n.id) ns))
  | inr e ↦ elem-tail o.id n.id _ (elem-selected p ns o os (ground arith))
]

-- In a workflow that validation accepts there is exactly one approval, and in the order it comes
-- after every report.
pub valid_approval :
    (isalnum : String → Bool) (w : WorkflowDefinition) (v : WorkflowValidation)
    → validate_workflow isalnum w ≡ ok v
    → v.valid ≡ true
    → (a : WorkflowNode) × (approvals w ≡ a ∷ [])
      × (is_empty (outputs w) ≡ false)
      × All (λ (o : WorkflowNode). Precedes v.topological_order o.id a.id) (outputs w)
valid_approval isalnum w v h e =
    let c = valid-IsClean isalnum w v h e in
    let o = valid_order isalnum w v h e in
    let (a, one, last) =
      approval_issues-last v.topological_order (outputs w) (approvals w) c.has_output
        (some_order (outputs w) refl c.has_output o.complete) c.approval_last in
    (a, one, c.has_output, last)
  where
    filled : (order : List String) (x : String) → elem x order ≡ true → is_empty order ≡ false
    filled [] x m = unfold elem in cc
    filled (y ∷ ys) x m = refl

    some_order :
        (os : List WorkflowNode)
        → outputs w ≡ os
        → is_empty os ≡ false
        → ((x : String) → elem x v.topological_order ≡ elem x (node_ids w))
        → is_empty v.topological_order ≡ false
    some_order [] q n k = cc
    some_order (p ∷ ps) q n k = filled v.topological_order p.id (
        k p.id
        ∙ elem-selected (λ (n : WorkflowNode). is_report n.kind) w.nodes p ps (unfold outputs in q))
