-- ===== src/Runtime/Start/Found.antt =====
-- What a start leaves behind for the next one.
use agenstfer_agi.Base.{
  String, ◌≡◌, refl, ap, ◌∙◌, Bool, true, false, not, Option, some, none, List, [], ◌∷◌, ◌++◌,
  Result, ok, err, Bool-cases, inl, inr,
}
use agenstfer_agi.Json.{Json, ℤ}
use agenstfer_agi.Workflow.Models.{WorkflowDefinition, WorkflowValidation}
use agenstfer_agi.Workflow.Validator.{validate_workflow}
use agenstfer_agi.Workflow.Validator.Checks.{ValidatorError}
use agenstfer_agi.Registry.Rows.{WorkflowDefinitionRow, is_published}
use agenstfer_agi.Policy.Profiles.{Settings}
use agenstfer_agi.Registry.Publish.{workflow_from_row}
use agenstfer_agi.Runtime.Conditions.{Failure}
use agenstfer_agi.Runtime.Store.{Run, Store}
use agenstfer_agi.Runtime.Engine.{Executor}
use agenstfer_agi.Runtime.Graph.{Invoke}
use agenstfer_agi.Runtime.Tables.{RunRow, Tables, run_with_key, run_at, with_store, save_run}
use agenstfer_agi.Runtime.Start.{
  Pins, Started, resumed, run_engine, resume_valid, resume_persisted_workflow, start_unless,
  new_run, start_pinned, start_new, start_persisted_workflow,
}
use agenstfer_agi.Runtime.Start.Once.{run_with_key-append, set_run-append}

-- The workflows are as they were, and a run that is returned is found under the key.
abbrev pub Leaves : String → Tables → Started → Type 0
Leaves key db y =
    (y.0.workflows ≡ db.workflows)
    × ((r : RunRow) → y.1 ≡ ok r → run_with_key key y.0.runs ≡ some r)

module _ (db : Tables) where
  resumed-Leaves :
      (row : RunRow) (x : Store × Result Failure Run)
      → run_with_key row.idempotency_key db.runs ≡ none
      → run_at row.id db.runs ≡ none
      → Leaves row.idempotency_key db (resumed row (record db { runs = db.runs ++ row ∷ [] }) x)
  unfolding resumed save_run
  resumed-Leaves row (s, ok run) new_key fresh = (
    refl,
    λ r h.
        ap (run_with_key row.idempotency_key)
          (set_run-append db.runs row (with_store row s) fresh refl)
        ∙ run_with_key-append row.idempotency_key db.runs (with_store row s) new_key refl
        ∙ (let r_is : with_store row s ≡ r = cc in ap some r_is),
  )
  resumed-Leaves row (s, err e) new_key fresh = (refl, λ r h. cc)

  module _ (isalnum : String → Bool) (py_str : Json → String) (py_int : Json → Option ℤ)
      (execute : RunRow → Executor) (takes : List String → Bool) (ainvoke : Invoke)
      (scope : Tables → Result Failure String) where
    resume_valid-Leaves :
        (row : RunRow) (w : WorkflowDefinition) (x : Result ValidatorError WorkflowValidation)
        → run_with_key row.idempotency_key db.runs ≡ none
        → run_at row.id db.runs ≡ none
        → Leaves row.idempotency_key db (
            resume_valid isalnum py_str py_int execute takes ainvoke scope row w x
              (record db { runs = db.runs ++ row ∷ [] }))
    unfolding resume_valid run_engine
    resume_valid-Leaves row w (err e) new_key fresh = (refl, λ r h. cc)
    resume_valid-Leaves row w (ok v) new_key fresh = elim (Bool-cases (not v.valid)) [
      | inl e ↦ rw e (refl, λ r h. cc)
      | inr e ↦ rw e (resumed-Leaves row _ new_key fresh)
    ]

    module _ (settings : Settings) (new_id : String → String) (row : WorkflowDefinitionRow)
        (key : String) (actor_id : Option String) (input_json : Json)
        (new_key : run_with_key key db.runs ≡ none)
        (fresh : run_at (new_id key) db.runs ≡ none) where
      start_pinned-Leaves :
          (execute_async : Bool) (x : Result Failure Pins)
          → Leaves key db (
              start_pinned isalnum py_str py_int execute takes ainvoke scope settings new_id row key
                actor_id input_json execute_async db x)
      unfolding start_pinned resume_persisted_workflow
      start_pinned-Leaves execute_async (err e) = (refl, λ r h. cc)
      start_pinned-Leaves true (ok pins) =
          let run =
            new_run isalnum py_str py_int execute takes ainvoke scope settings new_id row key
              actor_id input_json pins in
          (
            refl,
            λ r h.
                run_with_key-append key db.runs run new_key refl
                ∙ (let r_is : run ≡ r = cc in ap some r_is),
          )
      start_pinned-Leaves false (ok pins) =
          resume_valid-Leaves _ (workflow_from_row row)
            (validate_workflow isalnum (workflow_from_row row)) new_key fresh

      -- A start under a new key leaves the workflows alone and the run that it returns to be found.
      pub start-Leaves :
          (execute_async : Bool)
          → Leaves key db (
              start_persisted_workflow isalnum py_str py_int execute takes ainvoke scope settings
                new_id row key actor_id input_json execute_async db)
      unfolding start_persisted_workflow start_unless start_new
      start-Leaves execute_async = elim (Bool-cases (is_published row.status)) [
        | inl e ↦ rw (new_key, e) (start_pinned-Leaves execute_async _)
        | inr e ↦ rw (new_key, e) (refl, λ r h. cc)
      ]
