-- ===== src/Registry/Published.antt =====
-- Published workflow versions over runs of the registry's operations.
use agenstfer_agi.Base.{
  ℕ, String, ◌≡◌, refl, Bool, true, false, Option, some, List, arith, Bool-cases, inl, inr, Result,
  ok, err,
}
use agenstfer_agi.Json.{Json}
use agenstfer_agi.Workflow.Models.{WorkflowDefinition, WorkflowValidation}
use agenstfer_agi.Workflow.Validator.{validate_workflow}
use agenstfer_agi.Workflow.Validator.Checks.{ValidatorError}
use agenstfer_agi.Registry.Rows.{
  ManagedAgentSpec, WorkflowDefinitionRow, Registry, is_draft, row_at,
}
use agenstfer_agi.Registry.Bindings.{BindingError, validate_workflow_bindings}
use agenstfer_agi.Policy.Profiles.{Settings}
use agenstfer_agi.Registry.Drafts.{
  Outcome, ensure_platform_registry, save_workflow_draft, clone_workflow_version,
}
use agenstfer_agi.Registry.Publish.{
  published_row, store_bound, bind_seeded, publish_valid, publish_workflow, workflow_from_row,
}
use agenstfer_agi.Registry.Frozen.{
  row_at-same, row_at-has_key, row_at-set_row, ensure_platform_registry-keeps,
  save_workflow_draft-keeps, clone_workflow_version-keeps,
}

-- A draft that stands in the table under its key, and another row that is no draft.
module _ (row : WorkflowDefinitionRow) (i : String) (v : ℕ) (r : WorkflowDefinitionRow)
    (drafted : is_draft row.status ≡ true) (frozen : is_draft r.status ≡ false) where
  store_bound-keeps :
      (db : Registry) (x : Result BindingError WorkflowDefinition)
      → row_at row.id row.version db.workflows ≡ some row
      → row_at i v db.workflows ≡ some r
      → row_at i v (store_bound row db x).0.workflows ≡ some r
  unfolding store_bound
  store_bound-keeps db (err e) own there = there
  store_bound-keeps db (ok w) own there =
      row_at-set_row i v (published_row row w) r db.workflows there (
        ground (
          arith,
          row_at-same row.id i row.version v row db.workflows,
          row_at-has_key row.id row.version db.workflows row own,
        ))

  bind_seeded-keeps :
      (py_str : Json → String) (settings : Settings) (x : Outcome (Unit {0}))
      → row_at row.id row.version x.0.workflows ≡ some row
      → row_at i v x.0.workflows ≡ some r
      → row_at i v (bind_seeded py_str settings row x).0.workflows ≡ some r
  unfolding bind_seeded
  bind_seeded-keeps py_str settings (db, err e) own there = there
  bind_seeded-keeps py_str settings (db, ok u) own there =
      store_bound-keeps db
        (validate_workflow_bindings py_str settings db.agents (workflow_from_row row)) own there

  publish_valid-keeps :
      (py_str : Json → String) (settings : Settings) (isalnum : String → Bool)
      → (specs : List ManagedAgentSpec) (profile : Option String) (db : Registry)
      → (x : Result ValidatorError WorkflowValidation)
      → row_at row.id row.version db.workflows ≡ some row
      → row_at i v db.workflows ≡ some r
      → row_at i v (publish_valid py_str settings isalnum specs profile row db x).0.workflows
        ≡ some r
  unfolding publish_valid
  publish_valid-keeps py_str settings isalnum specs profile db (err e) own there = there
  publish_valid-keeps py_str settings isalnum specs profile db (ok report) own there =
      elim (Bool-cases report.valid) [
        | inl e ↦ rw e (
            bind_seeded-keeps py_str settings (ensure_platform_registry specs profile db)
              (ensure_platform_registry-keeps specs profile db row.id row.version row own)
              (ensure_platform_registry-keeps specs profile db i v r there))
        | inr e ↦ rw e there
      ]

  publish_workflow-keeps :
      (py_str : Json → String) (settings : Settings) (isalnum : String → Bool)
      → (specs : List ManagedAgentSpec) (profile : Option String) (db : Registry)
      → row_at row.id row.version db.workflows ≡ some row
      → row_at i v db.workflows ≡ some r
      → row_at i v (publish_workflow py_str settings isalnum specs profile row db).0.workflows
        ≡ some r
  unfolding publish_workflow
  publish_workflow-keeps py_str settings isalnum specs profile db own there = rw drafted (
      publish_valid-keeps py_str settings isalnum specs profile db
        (validate_workflow isalnum (workflow_from_row row)) own there)

publish_workflow-refused :
    (py_str : Json → String) (settings : Settings) (isalnum : String → Bool)
    → (specs : List ManagedAgentSpec) (profile : Option String)
    → (row : WorkflowDefinitionRow) (db : Registry) → is_draft row.status ≡ false
    → (publish_workflow py_str settings isalnum specs profile row db).0 ≡ db
unfolding publish_workflow
publish_workflow-refused py_str settings isalnum specs profile row db e = rw e refl

-- One operation on the registry's workflows. A row is cloned or published as the table has it.
module _ (py_str : Json → String) (isalnum : String → Bool) (specs : List ManagedAgentSpec) where
  pub data Step : Registry → Registry → Type 0 where
    seeding :
        (profile : Option String) (db : Registry)
        → Step db (ensure_platform_registry specs profile db).0
    saving :
        (profile : Option String) (w : WorkflowDefinition) (actor : Option String) (db : Registry)
        → Step db (save_workflow_draft specs profile w actor db).0
    cloning :
        (source : WorkflowDefinitionRow) (actor target : Option String) (db : Registry)
        → Step db (clone_workflow_version source actor target db).0
    publishing :
        (settings : Settings) (profile : Option String) (row : WorkflowDefinitionRow)
        (db : Registry)
        → row_at row.id row.version db.workflows ≡ some row
        → Step db (publish_workflow py_str settings isalnum specs profile row db).0

  pub data Steps : Registry → Registry → Type 0 where
    done : (db : Registry) → Steps db db
    next : (db db' db'' : Registry) → Step db db' → Steps db' db'' → Steps db db''

  row_at-Step :
      (db db' : Registry) (i : String) (v : ℕ) (r : WorkflowDefinitionRow)
      → Step db db'
      → is_draft r.status ≡ false
      → row_at i v db.workflows ≡ some r
      → row_at i v db'.workflows ≡ some r
  row_at-Step _ _ i v r (seeding profile db) f t =
      ensure_platform_registry-keeps specs profile db i v r t
  row_at-Step _ _ i v r (saving profile w actor db) f t =
      save_workflow_draft-keeps specs profile w actor db i v r t f
  row_at-Step _ _ i v r (cloning source actor target db) f t =
      clone_workflow_version-keeps source actor target db i v r t
  row_at-Step _ _ i v r (publishing settings profile row db own) f t =
      elim (Bool-cases (is_draft row.status)) [
        | inl e ↦
            publish_workflow-keeps row i v r e f py_str settings isalnum specs profile db own t
        | inr e ↦ rw (publish_workflow-refused py_str settings isalnum specs profile row db e) t
      ]

  -- A published version keeps its row, in every sequence of seeding, saving, cloning and publishing.
  pub published_stays :
      (db db' : Registry) (i : String) (v : ℕ) (r : WorkflowDefinitionRow)
      → Steps db db'
      → is_draft r.status ≡ false
      → row_at i v db.workflows ≡ some r
      → row_at i v db'.workflows ≡ some r
  published_stays _ _ i v r (done db) f t = t
  published_stays _ _ i v r (next db db' db'' s ss) f t =
      published_stays db' db'' i v r ss f (row_at-Step db db' i v r s f t)
