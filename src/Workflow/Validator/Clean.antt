-- ===== src/Workflow/Validator/Clean.antt =====
-- What a valid result says of each part of validate_workflow.
use agenstfer_agi.Base.{
  bind-ok, String, ◌≡◌, refl, Bool, true, false, Option, none, some, List, [], ◌∷◌, ◌++◌, arith,
  is_empty, length, Result, ok, err, ◌>>=◌,
}
use agenstfer_agi.Base.Dict.{keys, Dict}
use agenstfer_agi.Workflow.Models.{WorkflowDefinition, WorkflowValidation, WorkflowIssue}
use agenstfer_agi.Workflow.Validator.Links.{node_table}
use agenstfer_agi.Workflow.Validator.{
  triggers, outputs, approvals, scan, find_order, reach_issues, order_issues, validate_order,
  validate_workflow,
}
use agenstfer_agi.Workflow.Validator.Checks.{
  ValidatorError, all_node_issues, all_branch_issues, approval_issues, issues_when,
}

pub record IsClean (isalnum : String → Bool) (w : WorkflowDefinition) (order : List String)
    : Type 0 where
  pub found : find_order w (scan w) ≡ some order
  pub one_trigger : length (triggers w) ≡ 1
  pub nodes_clean : all_node_issues isalnum w.nodes ≡ ok []
  pub edges_clean : (scan w).issues ≡ []
  pub branches_clean : all_branch_issues w.edges w.nodes ≡ []
  pub all_ordered : length order ≡ length (keys (node_table w.nodes))
  pub all_reached : reach_issues w (scan w).outgoing (triggers w) ≡ ok []
  pub has_output : is_empty (outputs w) ≡ false
  pub approval_last : approval_issues order (outputs w) (approvals w) ≡ ok []

-- A sum of reports that comes out empty is empty in each part.
parts_nil :
    (b₁ b₂ : Bool) (i₁ i₂ : WorkflowIssue) (before u l : List WorkflowIssue)
    → is_empty (before ++ (issues_when b₁ i₁ ++ (u ++ (issues_when b₂ i₂ ++ l)))) ≡ true
    → (before ≡ []) × (b₁ ≡ false) × (u ≡ []) × (b₂ ≡ false) × (l ≡ [])
unfolding issues_when
parts_nil true b₂ i₁ i₂ [] u l h = cc
parts_nil false true i₁ i₂ [] [] l h = cc
parts_nil false false i₁ i₂ [] [] [] h = (refl, refl, refl, refl, refl)
parts_nil false false i₁ i₂ [] [] (x ∷ l) h = cc
parts_nil false b₂ i₁ i₂ [] (x ∷ u) l h = cc
parts_nil b₁ b₂ i₁ i₂ (x ∷ before) u l h = cc

sum_nil :
    (b₁ b₂ : Bool) (i₁ i₂ : WorkflowIssue) (before issues : List WorkflowIssue)
    (r₁ r₂ : Result ValidatorError (List WorkflowIssue))
    → (r₁ >>= λ u.
        r₂ >>= λ l. ok (before ++ (issues_when b₁ i₁ ++ (u ++ (issues_when b₂ i₂ ++ l)))))
      ≡ ok issues
    → is_empty issues ≡ true
    → (before ≡ []) × (b₁ ≡ false) × (r₁ ≡ ok []) × (b₂ ≡ false) × (r₂ ≡ ok [])
sum_nil b₁ b₂ i₁ i₂ before issues (err x) r₂ h e = cc
sum_nil b₁ b₂ i₁ i₂ before issues (ok u) (err x) h e = cc
sum_nil b₁ b₂ i₁ i₂ before issues (ok u) (ok l) h e =
    ground (arith, parts_nil b₁ b₂ i₁ i₂ before u l)

-- What the part that depends on the order says, when nothing at all is reported.
module _ (w : WorkflowDefinition) (before : List WorkflowIssue)
    (outgoing : Dict (List String)) where
  record OrderClean (order : List String) : Type 0 where
    before_clean : before ≡ []
    ordered : length order ≡ length (keys (node_table w.nodes))
    reached : reach_issues w outgoing (triggers w) ≡ ok []
    output : is_empty (outputs w) ≡ false
    last : approval_issues order (outputs w) (approvals w) ≡ ok []

  order_issues-OrderClean :
      (order : List String) (issues : List WorkflowIssue)
      → order_issues w before outgoing order ≡ ok issues
      → is_empty issues ≡ true
      → OrderClean order
  unfolding order_issues
  order_issues-OrderClean order issues h e =
      let (p, c, r, o, l) =
        sum_nil _ _ _ _ before issues (reach_issues w outgoing (triggers w))
          (approval_issues order (outputs w) (approvals w)) h e in
      record { before_clean = p; ordered = ground arith; reached = r; output = o; last = l }

  validate_order-OrderClean :
      (found : Option (List String)) (v : WorkflowValidation)
      → validate_order w before outgoing found ≡ ok v
      → v.valid ≡ true
      → (found ≡ some v.topological_order) × OrderClean v.topological_order
  unfolding validate_order
  validate_order-OrderClean none v h e = cc
  validate_order-OrderClean (some order) v h e =
      let (issues, r, q) = bind-ok (order_issues w before outgoing order) _ h in
      let same : v.topological_order ≡ order = ground arith in
      (rw same refl, rw same (order_issues-OrderClean order issues r (ground arith)))

before_nil :
    (b : Bool) (i : WorkflowIssue) (xs ys zs : List WorkflowIssue)
    → (issues_when b i ++ (xs ++ (ys ++ zs))) ≡ []
    → (b ≡ false) × (xs ≡ []) × (ys ≡ []) × (zs ≡ [])
unfolding issues_when
before_nil true i xs ys zs h = cc
before_nil false i [] [] [] h = (refl, refl, refl, refl)
before_nil false i [] [] (z ∷ zs) h = cc
before_nil false i [] (y ∷ ys) zs h = cc
before_nil false i (x ∷ xs) ys zs h = cc

pub valid-IsClean :
    (isalnum : String → Bool) (w : WorkflowDefinition) (v : WorkflowValidation)
    → validate_workflow isalnum w ≡ ok v
    → v.valid ≡ true
    → IsClean isalnum w v.topological_order
unfolding validate_workflow
valid-IsClean isalnum w v h e =
    let (of_nodes, n, h₁) = bind-ok (all_node_issues isalnum w.nodes) _ h in
    let (f, c) = validate_order-OrderClean w _ (scan w).outgoing (find_order w (scan w)) v h₁ e in
    let (t, p, q, r) = before_nil _ _ of_nodes (scan w).issues _ c.before_clean in
    record {
      found = f;
      one_trigger = ground arith;
      nodes_clean = rw p at n;
      edges_clean = q;
      branches_clean = r;
      all_ordered = c.ordered;
      all_reached = c.reached;
      has_output = c.output;
      approval_last = c.last;
    }
