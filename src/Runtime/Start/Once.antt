-- ===== src/Runtime/Start/Once.antt =====
-- A start under one key, and the two ways to execute it.
use agenstfer_agi.Base.{
  String, ◌≡◌, refl, ap, ◌∙◌, ◌⊎◌, inl, inr, Bool, true, false, not, Option, none, some, List, [],
  ◌∷◌, ◌++◌, Result, ok, err, arith, eq_refl, Bool-cases,
}
use agenstfer_agi.Json.{Json, ℤ}
use agenstfer_agi.Workflow.Models.{WorkflowDefinition, WorkflowValidation}
use agenstfer_agi.Workflow.Validator.{validate_workflow}
use agenstfer_agi.Workflow.Validator.Checks.{ValidatorError}
use agenstfer_agi.Registry.Rows.{WorkflowDefinitionRow, is_published, row_at}
use agenstfer_agi.Policy.Profiles.{Settings}
use agenstfer_agi.Registry.Publish.{workflow_from_row}
use agenstfer_agi.Runtime.Conditions.{Failure}
use agenstfer_agi.Runtime.Store.{Run, Store}
use agenstfer_agi.Runtime.Engine.{Executor}
use agenstfer_agi.Runtime.Graph.{Invoke}
use agenstfer_agi.Runtime.Tables.{
  RunRow, Tables, run_with_key, run_at, set_run, with_store, save_run,
}
use agenstfer_agi.Runtime.Start.{
  StartError, raised, Pins, Started, resumed, run_engine, resume_valid, resume_persisted_workflow,
  execute_workflow_in_background, execute_found, start_unless, new_run, start_pinned, start_new,
  start_persisted_workflow,
}

pub run_with_key-append :
    (key : String) (rs : List RunRow) (r : RunRow)
    → run_with_key key rs ≡ none
    → r.idempotency_key ≡ key
    → run_with_key key (rs ++ r ∷ []) ≡ some r
unfolding run_with_key
run_with_key-append key [] r fresh own = rw (own, eq_refl key) refl
run_with_key-append key (x ∷ rs) r fresh own = ground (arith, run_with_key-append key rs r)

run_at-append :
    (rs : List RunRow) (r : RunRow) → run_at r.id rs ≡ none → run_at r.id (rs ++ r ∷ []) ≡ some r
unfolding run_at
run_at-append [] r fresh = rw (eq_refl r.id) refl
run_at-append (x ∷ rs) r fresh = ground (arith, run_at-append rs r)

pub set_run-append :
    (rs : List RunRow) (r r' : RunRow)
    → run_at r.id rs ≡ none
    → r'.id ≡ r.id
    → set_run r' (rs ++ r ∷ []) ≡ rs ++ r' ∷ []
unfolding run_at set_run
set_run-append [] r r' fresh same = rw (same, eq_refl r.id) refl
set_run-append (x ∷ rs) r r' fresh same = ground (arith, set_run-append rs r r')

resumed-runs :
    (row : RunRow) (db : Tables) (x : Store × Result Failure Run)
    → run_at row.id db.runs ≡ none
    → (resumed row (record db { runs = db.runs ++ row ∷ [] }) x).0.runs
      ≡ db.runs ++ with_store row x.0 ∷ []
unfolding resumed save_run
resumed-runs row db (s, ok run) fresh = set_run-append db.runs row (with_store row s) fresh refl
resumed-runs row db (s, err e) fresh = set_run-append db.runs row (with_store row s) fresh refl

-- A run that is new and carries a key.
pub record Adds (db db' : Tables) (id key : String) : Type 0 where
  pub run : RunRow
  pub runs_are : db'.runs ≡ db.runs ++ run ∷ []
  pub key_is : run.idempotency_key ≡ key
  pub id_is : run.id ≡ id

module _ (isalnum : String → Bool) (py_str : Json → String) (py_int : Json → Option ℤ)
    (execute : RunRow → Executor) (takes : List String → Bool) (ainvoke : Invoke)
    (scope : Tables → Result Failure String) where
  resume_valid-Adds :
      (row : RunRow) (w : WorkflowDefinition) (x : Result ValidatorError WorkflowValidation)
      (db : Tables)
      → run_at row.id db.runs ≡ none
      → Adds db
          (resume_valid isalnum py_str py_int execute takes ainvoke scope row w x
            (record db { runs = db.runs ++ row ∷ [] })).0
          row.id
          row.idempotency_key
  unfolding resume_valid run_engine
  resume_valid-Adds row w (err e) db fresh = record {
    run = row;
    runs_are = refl;
    key_is = refl;
    id_is = refl;
  }
  resume_valid-Adds row w (ok v) db fresh = elim (Bool-cases (not v.valid)) [
    | inl e ↦ rw e (record { run = row; runs_are = refl; key_is = refl; id_is = refl })
    | inr e ↦
        rw e
          (record { run = _; runs_are = resumed-runs row db _ fresh; key_is = refl; id_is = refl })
  ]

  module _ (settings : Settings) (new_id : String → String) where
    -- A start ends before it stores anything, or has stored one run.
    abbrev Stores : Tables → String → Started → Type 0
    Stores db key y = ((e : StartError) × (y ≡ (db, err e))) ⊎ Adds db y.0 (new_id key) key

    start_pinned-Stores :
        (row : WorkflowDefinitionRow) (key : String) (actor_id : Option String) (input_json : Json)
        → (execute_async : Bool) (db : Tables) (x : Result Failure Pins)
        → run_at (new_id key) db.runs ≡ none
        → Stores db key (
            start_pinned isalnum py_str py_int execute takes ainvoke scope settings new_id row key
              actor_id input_json execute_async db x)
    unfolding start_pinned resume_persisted_workflow
    start_pinned-Stores row key actor_id input_json execute_async db (err e) fresh =
        inl (raised e, refl)
    start_pinned-Stores row key actor_id input_json true db (ok pins) fresh =
        inr (record { run = _; runs_are = refl; key_is = refl; id_is = refl })
    start_pinned-Stores row key actor_id input_json false db (ok pins) fresh = inr (
        resume_valid-Adds _ (workflow_from_row row)
          (validate_workflow isalnum (workflow_from_row row)) db fresh)

    start_new-Stores :
        (row : WorkflowDefinitionRow) (key : String) (actor_id : Option String) (input_json : Json)
        → (execute_async : Bool) (db : Tables) → run_at (new_id key) db.runs ≡ none
        → Stores db key (
            start_new isalnum py_str py_int execute takes ainvoke scope settings new_id row key
              actor_id input_json execute_async db)
    unfolding start_new
    start_new-Stores row key actor_id input_json execute_async db fresh =
        elim (Bool-cases (is_published row.status)) [
          | inl e ↦ rw e (start_pinned-Stores row key actor_id input_json execute_async db _ fresh)
          | inr e ↦ rw e (inl (_, refl))
        ]

    -- A start under a key that is new, with an id that is new, either stores nothing and raises, or
    -- stores one run under the key, however its execution ends; then any further start under the
    -- key stores nothing and returns that run.
    pub start_once :
        (row row' : WorkflowDefinitionRow) (key : String) (actor_id actor_id' : Option String)
        → (input_json input_json' : Json) (execute_async execute_async' : Bool) (db : Tables)
        → run_with_key key db.runs ≡ none
        → run_at (new_id key) db.runs ≡ none
        → (let y =
              start_persisted_workflow isalnum py_str py_int execute takes ainvoke scope settings
                new_id row key actor_id input_json execute_async db in
            ((e : StartError) × (y ≡ (db, err e)))
            ⊎ ((run : RunRow) × (y.0.runs ≡ db.runs ++ run ∷ [])
                × (run.idempotency_key ≡ key)
                × (run.id ≡ new_id key)
                × (start_persisted_workflow isalnum py_str py_int execute takes ainvoke scope
                      settings new_id row' key actor_id' input_json' execute_async' y.0
                    ≡ (y.0, ok run))))
    unfolding start_persisted_workflow start_unless
    start_once row row' key actor_id actor_id' input_json input_json' execute_async execute_async'
          db new_key fresh =
        rw new_key (elim (start_new-Stores row key actor_id input_json execute_async db fresh) [
          | inl stopped ↦ inl stopped
          | inr a ↦
              let again =
                ap (run_with_key key) a.runs_are
                ∙ run_with_key-append key db.runs a.run new_key a.key_is in
              inr (a.run, a.runs_are, a.key_is, a.id_is, rw again refl)
        ])

    in_background :
        (row : WorkflowDefinitionRow) (run : RunRow) (db : Tables)
        → run_at run.id db.runs ≡ none
        → row_at row.id row.version db.workflows ≡ some row
        → (let db' = record db { runs = db.runs ++ run ∷ [] } in
            execute_workflow_in_background isalnum py_str py_int execute takes ainvoke scope run.id
              row.id row.version db'
            ≡ (resume_persisted_workflow isalnum py_str py_int execute takes ainvoke scope run
                (workflow_from_row row)
                db').0)
    unfolding execute_workflow_in_background execute_found
    in_background row run db fresh known = rw (run_at-append db.runs run fresh, known) refl

    pinned_same :
        (row : WorkflowDefinitionRow) (key : String) (actor_id : Option String) (input_json : Json)
        → (db : Tables) (x : Result Failure Pins) → run_at (new_id key) db.runs ≡ none
        → row_at row.id row.version db.workflows ≡ some row
        → (run : RunRow) (db' : Tables)
        → start_pinned isalnum py_str py_int execute takes ainvoke scope settings new_id row key
            actor_id input_json true db x
          ≡ (db', ok run)
        → execute_workflow_in_background isalnum py_str py_int execute takes ainvoke scope run.id
            run.workflow_id run.workflow_version db'
          ≡ (start_pinned isalnum py_str py_int execute takes ainvoke scope settings new_id row key
              actor_id input_json false db x).0
    unfolding start_pinned
    pinned_same row key actor_id input_json db (err e) fresh known run db' h = cc
    pinned_same row key actor_id input_json db (ok pins) fresh known run db' h =
        let own =
          new_run isalnum py_str py_int execute takes ainvoke scope settings new_id row key actor_id
            input_json pins in
        let db_is : record db { runs = db.runs ++ own ∷ [] } ≡ db' = ap (λ (y : Started). y.0) h in
        let run_is : own ≡ run = cc in rw (← db_is, ← run_is) (in_background row own db fresh known)

    -- Execution in the background, from the row of the workflow that is stored, leaves the same rows
    -- as execution within the start.
    pub background_same :
        (row : WorkflowDefinitionRow) (key : String) (actor_id : Option String) (input_json : Json)
        → (db : Tables) → run_with_key key db.runs ≡ none
        → run_at (new_id key) db.runs ≡ none
        → row_at row.id row.version db.workflows ≡ some row
        → (run : RunRow) (db' : Tables)
        → start_persisted_workflow isalnum py_str py_int execute takes ainvoke scope settings new_id
            row key actor_id input_json true db
          ≡ (db', ok run)
        → execute_workflow_in_background isalnum py_str py_int execute takes ainvoke scope run.id
            run.workflow_id run.workflow_version db'
          ≡ (start_persisted_workflow isalnum py_str py_int execute takes ainvoke scope settings
              new_id row key actor_id input_json false db).0
    unfolding start_persisted_workflow start_unless start_new
    background_same row key actor_id input_json db new_key fresh known run db' h =
        let h' = rw new_key at h in
        elim (Bool-cases (is_published row.status)) [
          | inl e ↦
              rw (new_key, e)
                (pinned_same row key actor_id input_json db _ fresh known run db' (rw e at h'))
          | inr e ↦ absurd (let h'' = rw e at h' in cc)
        ]
