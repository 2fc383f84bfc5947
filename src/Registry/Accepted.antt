-- ===== src/Registry/Accepted.antt =====
-- The outcome of publish_workflow.
use agenstfer_agi.Base.{
  String, ◌≡◌, refl, sym, ap, ◌∙◌, Bool, true, Option, some, List, [], ◌∷◌, eq_iff, arith,
  if◌then◌else◌, Bool-cases, inl, inr, Result, ok, err,
}
use agenstfer_agi.Json.{Json}
use agenstfer_agi.Workflow.Models.{WorkflowDefinition, WorkflowValidation}
use agenstfer_agi.Workflow.Validator.{validate_workflow}
use agenstfer_agi.Workflow.Validator.Checks.{ValidatorError}
use agenstfer_agi.Registry.Rows.{
  ManagedAgentSpec, WorkflowDefinitionRow, Registry, is_draft, row_at, set_row,
}
use agenstfer_agi.Registry.Bindings.{BindingError, validate_workflow_bindings}
use agenstfer_agi.Policy.Profiles.{Settings}
use agenstfer_agi.Registry.Drafts.{Outcome, ensure_platform_registry}
use agenstfer_agi.Registry.Publish.{
  published_row, store_bound, bind_seeded, publish_valid, publish_workflow, workflow_from_row,
  invalid,
}
use agenstfer_agi.Registry.Frozen.{ensure_platform_registry-keeps}

row_at-set_row_own :
    (row new : WorkflowDefinitionRow) (rows : List WorkflowDefinitionRow)
    → row_at row.id row.version rows ≡ some row
    → new.id ≡ row.id
    → new.version ≡ row.version
    → row_at row.id row.version (set_row new rows) ≡ some new
unfolding row_at set_row
row_at-set_row_own row new [] own p q = cc
row_at-set_row_own row new (x ∷ rows) own p q = ground (
  arith,
  row_at-set_row_own row new rows,
  eq_iff x.id row.id,
  eq_iff x.id new.id,
  eq_iff new.id row.id,
)

-- The reports and the binding behind a published row.
pub record Accepted (py_str : Json → String) (settings : Settings) (isalnum : String → Bool)
    (row p : WorkflowDefinitionRow) (db' : Registry) : Type 0 where
  pub report : WorkflowValidation
  pub validated : validate_workflow isalnum (workflow_from_row row) ≡ ok report
  pub is_valid : report.valid ≡ true
  pub workflow : WorkflowDefinition
  pub bound :
      validate_workflow_bindings py_str settings db'.agents (workflow_from_row row) ≡ ok workflow
  pub result : p ≡ published_row row workflow
  pub stored : row_at row.id row.version db'.workflows ≡ some p

module _ (py_str : Json → String) (settings : Settings) where
  store_bound-ok :
      (row p : WorkflowDefinitionRow) (db db' : Registry)
      (x : Result BindingError WorkflowDefinition)
      → store_bound row db x ≡ (db', ok p)
      → row_at row.id row.version db.workflows ≡ some row
      → (w : WorkflowDefinition) × (x ≡ ok w)
        × (p ≡ published_row row w)
        × (db'.agents ≡ db.agents)
        × (row_at row.id row.version db'.workflows ≡ some p)
  unfolding store_bound
  store_bound-ok row p db db' (err e) h own = cc
  store_bound-ok row p db db' (ok w) h own =
      let same : published_row row w ≡ p = cc in
      let db_is : record db { workflows = set_row (published_row row w) db.workflows } ≡ db' = cc in
      (
        w,
        refl,
        sym same,
        rw (← db_is) refl,
        rw (← db_is, ← same)
            (row_at-set_row_own row (published_row row w) db.workflows own refl refl),
      )

  bind_seeded-ok :
      (row p : WorkflowDefinitionRow) (x : Outcome (Unit {0})) (db' : Registry)
      → bind_seeded py_str settings row x ≡ (db', ok p)
      → row_at row.id row.version x.0.workflows ≡ some row
      → (w : WorkflowDefinition) × (validate_workflow_bindings py_str settings db'.agents
            (workflow_from_row row)
          ≡ ok w)
        × (p ≡ published_row row w)
        × (row_at row.id row.version db'.workflows ≡ some p)
  unfolding bind_seeded
  bind_seeded-ok row p (db, err e) db' h own = cc
  bind_seeded-ok row p (db, ok u) db' h own =
      let (w, bound, same, agents, stored) =
        store_bound-ok row p db db'
          (validate_workflow_bindings py_str settings db.agents (workflow_from_row row)) h own in
      (w, rw agents bound, same, stored)

  module _ (isalnum : String → Bool) (specs : List ManagedAgentSpec) (profile : Option String) where
    publish_valid-ok :
        (row p : WorkflowDefinitionRow) (db db' : Registry)
        → (x : Result ValidatorError WorkflowValidation)
        → publish_valid py_str settings isalnum specs profile row db x ≡ (db', ok p)
        → (report : WorkflowValidation) × (x ≡ ok report)
          × (report.valid ≡ true)
          × (bind_seeded py_str settings row (ensure_platform_registry specs profile db)
              ≡ (db', ok p))
    unfolding publish_valid
    publish_valid-ok row p db db' (err e) h = cc
    publish_valid-ok row p db db' (ok report) h = elim (Bool-cases report.valid) [
      | inl e ↦ (
        report,
        refl,
        e,
        ap
              (λ b.
                if b
                then bind_seeded py_str settings row (ensure_platform_registry specs profile db)
                else (db, err invalid))
              (sym e)
            ∙ h,
      )
      | inr e ↦ cc
    ]

    -- When publishing a row of the table succeeds, the validator has reported its workflow as
    -- valid, its bindings were accepted over the agents of the table that is left, and the bound
    -- workflow stands published in the place of the row.
    pub publish_accepts :
        (row p : WorkflowDefinitionRow) (db db' : Registry)
        → row_at row.id row.version db.workflows ≡ some row
        → publish_workflow py_str settings isalnum specs profile row db ≡ (db', ok p)
        → Accepted py_str settings isalnum row p db'
    unfolding publish_workflow
    publish_accepts row p db db' own h = elim (Bool-cases (is_draft row.status)) [
      | inl e ↦
          let (report, validated, is_valid, after) =
            publish_valid-ok row p db db' (validate_workflow isalnum (workflow_from_row row))
              (rw e at h) in
          let (w, bound, result, stored) =
            bind_seeded-ok row p (ensure_platform_registry specs profile db) db' after
              (ensure_platform_registry-keeps specs profile db row.id row.version row own) in
          record {
            report = report;
            validated = validated;
            is_valid = is_valid;
            workflow = w;
            bound = bound;
            result = result;
            stored = stored;
          }
      | inr e ↦ cc
    ]
