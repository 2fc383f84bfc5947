-- ===== src/Registry/Frozen.antt =====
-- What saving, cloning and seeding do to a row that is no draft.
use agenstfer_agi.Base.{
  ℕ, ◌≤◌, String, ◌≡◌, refl, true, false, Option, none, some, List, [], ◌∷◌, ◌==◌, eq_iff, arith,
  Bool-cases, Option-cases, inl, inr, Result, ok, err,
}
use agenstfer_agi.Workflow.Models.{WorkflowDefinition}
use agenstfer_agi.Registry.Rows.{
  ManagedAgentSpec, DefinitionRow, WorkflowDefinitionRow, Registry, is_draft, has_key, row_at,
  set_row, max, max_version,
}
use agenstfer_agi.Registry.Drafts.{
  RegistryError, draft_row, save_draft, clone_row, seed_workflow, with_workflows, after_seeding,
  Outcome, add_missing, default_row, safe_id, clone_target, clone_name, ensure_platform_registry,
  save_workflow_row, save_workflow_draft, clone_workflow_version,
}

max-le : (n k : ℕ) (o : Option ℕ) → n ≡ k → k ≤ max n o
max-le n k none e = omega arith
max-le n k (some m) e = ground arith

module _ {A : Type 0} where
  max_version-bounds :
      (id : String) (version : ℕ) (rows : List (DefinitionRow A)) (r : DefinitionRow A)
      → row_at id version rows ≡ some r
      → (m : ℕ) × (max_version id rows ≡ some m) × (version ≤ m)
  unfolding row_at max_version
  max_version-bounds id version [] r h = cc
  max_version-bounds id version (row ∷ rows) r h = elim (Bool-cases (has_key id version row)) [
    | inl e ↦ (
      max row.version (max_version id rows),
      ground arith,
      max-le row.version version (max_version id rows) (ground arith),
    )
    | inr e ↦
        let (m, p, q) = max_version-bounds id version rows r (ground arith) in
        elim (Bool-cases (row.id == id)) [
          | inl f ↦ (max row.version (some m), ground arith, ground arith)
          | inr f ↦ (m, ground arith, q)
        ]
  ]

  pub row_at-has_key :
      (id : String) (version : ℕ) (rows : List (DefinitionRow A)) (r : DefinitionRow A)
      → row_at id version rows ≡ some r
      → has_key id version r ≡ true
  unfolding row_at
  row_at-has_key id version [] r h = cc
  row_at-has_key id version (row ∷ rows) r h = ground (arith, row_at-has_key id version rows r)

  -- Two keys that one row has find the same row.
  pub row_at-same :
      (id i : String) (version v : ℕ) (x : DefinitionRow A) (rows : List (DefinitionRow A))
      → has_key id version x ≡ true
      → has_key i v x ≡ true
      → row_at i v rows ≡ row_at id version rows
  unfolding row_at
  row_at-same id i version v x rows p q =
      let same_id : i ≡ id = ground (arith, eq_iff x.id id, eq_iff x.id i) in
      let same_version : v ≡ version = ground arith in rw (same_id, same_version) refl

  pub row_at-set_row :
      (id : String) (version : ℕ) (row r : DefinitionRow A) (rows : List (DefinitionRow A))
      → row_at id version rows ≡ some r
      → has_key id version row ≡ false
      → row_at id version (set_row row rows) ≡ some r
  unfolding row_at set_row
  row_at-set_row id version row r [] h e = cc
  row_at-set_row id version row r (x ∷ rows) h e = ground (
    arith,
    row_at-set_row id version row r rows,
    eq_iff row.id id,
    eq_iff x.id row.id,
    eq_iff x.id id,
  )

-- Saving a draft keeps every row that is no draft.
module _ {A : Type 0} where
  save_draft-keeps :
      (id : String) (version : ℕ) (name : String) (a : A) (actor : Option String)
      → (rows rows' : List (DefinitionRow A)) (row : DefinitionRow A)
      → (i : String) (v : ℕ) (r : DefinitionRow A)
      → save_draft id version name a actor rows ≡ ok (rows', row)
      → row_at i v rows ≡ some r
      → is_draft r.status ≡ false
      → row_at i v rows' ≡ some r
  unfolding save_draft row_at
  save_draft-keeps id version name a actor rows rows' row i v r h there frozen =
      elim (Option-cases (row_at id version rows)) [
        | inl e ↦ ground (
          arith,
          row_at-same id i version v (draft_row id version name a actor) rows,
          eq_iff id id,
        )
        | inr (old, e) ↦
            let written = record old { name = name; definition = a } in
            let k = row_at-has_key id version rows old e in
            ground (
              arith,
              row_at-same id i version v old rows k,
              row_at-set_row i v written r rows there,
            )
      ]

  clone_row-keeps :
      (id name : String) (payload : ℕ → A) (actor : Option String) (rows : List (DefinitionRow A))
      → (i : String) (v : ℕ) (r : DefinitionRow A) → row_at i v rows ≡ some r
      → row_at i v (clone_row id name payload actor rows ∷ rows) ≡ some r
  unfolding clone_row row_at
  clone_row-keeps id name payload actor rows i v r there =
      let (m, p, q) = max_version-bounds i v rows r there in ground (arith, eq_iff id i)

add_missing-keeps :
    {A : Type 0} (row : DefinitionRow A) (rows : List (DefinitionRow A))
    → (i : String) (v : ℕ) (r : DefinitionRow A) → row_at i v rows ≡ some r
    → row_at i v (add_missing row rows) ≡ some r
unfolding add_missing row_at
add_missing-keeps row rows i v r there =
    ground (arith, row_at-same row.id i row.version v row rows, eq_iff row.id row.id)

module _ (specs : List ManagedAgentSpec) (profile : Option String) where
  seed_workflow-keeps :
      (rows : List WorkflowDefinitionRow) (i : String) (v : ℕ) (r : WorkflowDefinitionRow)
      → row_at i v rows ≡ some r
      → row_at i v (seed_workflow profile rows) ≡ some r
  unfolding seed_workflow
  seed_workflow-keeps rows = add_missing-keeps (default_row profile) rows

  pub ensure_platform_registry-keeps :
      (db : Registry) (i : String) (v : ℕ) (r : WorkflowDefinitionRow)
      → row_at i v db.workflows ≡ some r
      → row_at i v (ensure_platform_registry specs profile db).0.workflows ≡ some r
  unfolding ensure_platform_registry
  ensure_platform_registry-keeps db i v r there =
      ground (arith, seed_workflow-keeps db.workflows i v r there)

  with_workflows-keeps :
      (db : Registry)
      (x : Result RegistryError (List WorkflowDefinitionRow × WorkflowDefinitionRow))
      → (i : String) (v : ℕ) (r : WorkflowDefinitionRow)
      → ((rows : List WorkflowDefinitionRow) (row : WorkflowDefinitionRow)
          → x ≡ ok (rows, row)
          → row_at i v rows ≡ some r)
      → row_at i v db.workflows ≡ some r
      → row_at i v (with_workflows db x).0.workflows ≡ some r
  unfolding with_workflows
  with_workflows-keeps db (ok (rows, row)) i v r k there = k rows row refl
  with_workflows-keeps db (err e) i v r k there = there

  save_workflow_row-keeps :
      (w : WorkflowDefinition) (actor : Option String) (db : Registry)
      → (i : String) (v : ℕ) (r : WorkflowDefinitionRow) → row_at i v db.workflows ≡ some r
      → is_draft r.status ≡ false
      → row_at i v (save_workflow_row specs profile w actor db).0.workflows ≡ some r
  unfolding save_workflow_row
  save_workflow_row-keeps w actor db i v r there frozen =
      let payload = record w { status = "draft" } in
      with_workflows-keeps db (save_draft w.id w.version w.name payload actor db.workflows) i v r
        (λ rows row e.
          save_draft-keeps w.id w.version w.name payload actor db.workflows rows row i v r e there
            frozen)
        there

  after_seeding-keeps :
      (f : Registry → Outcome WorkflowDefinitionRow) (x : Outcome (Unit {0}))
      → (i : String) (v : ℕ) (r : WorkflowDefinitionRow)
      → ((db : Registry)
          → row_at i v db.workflows ≡ some r
          → row_at i v (f db).0.workflows ≡ some r)
      → row_at i v x.0.workflows ≡ some r
      → row_at i v (after_seeding f x).0.workflows ≡ some r
  unfolding after_seeding
  after_seeding-keeps f (db, ok u) i v r k there = k db there
  after_seeding-keeps f (db, err e) i v r k there = there

  pub save_workflow_draft-keeps :
      (w : WorkflowDefinition) (actor : Option String) (db : Registry)
      → (i : String) (v : ℕ) (r : WorkflowDefinitionRow) → row_at i v db.workflows ≡ some r
      → is_draft r.status ≡ false
      → row_at i v (save_workflow_draft specs profile w actor db).0.workflows ≡ some r
  unfolding save_workflow_draft
  save_workflow_draft-keeps w actor db i v r there frozen = elim (Bool-cases (safe_id w.id)) [
    | inl e ↦ rw e (
        after_seeding-keeps (save_workflow_row specs profile w actor)
          (ensure_platform_registry specs profile db) i v r
          (λ db' t. save_workflow_row-keeps w actor db' i v r t frozen)
          (ensure_platform_registry-keeps db i v r there))
    | inr e ↦ rw e there
  ]

pub clone_workflow_version-keeps :
    (source : WorkflowDefinitionRow) (actor target : Option String) (db : Registry)
    → (i : String) (v : ℕ) (r : WorkflowDefinitionRow) → row_at i v db.workflows ≡ some r
    → row_at i v (clone_workflow_version source actor target db).0.workflows ≡ some r
unfolding clone_workflow_version
clone_workflow_version-keeps source actor target db i v r there =
    elim (Bool-cases (safe_id (clone_target target source.id))) [
      | inl e ↦ rw e (
          clone_row-keeps (clone_target target source.id) (clone_name target source.name)
            (λ (version : ℕ). record source.definition {
              id = clone_target target source.id;
              version = version;
              status = "draft";
            })
            actor db.workflows i v r there)
      | inr e ↦ rw e there
    ]
