-- ===== src/Runtime/Start/Service.antt =====
-- The start of runs as the scheduler uses it, with what it relies on, and start_persisted_workflow
-- as such a service.
use agenstfer_agi.Base.{List, String, ◌≡◌, refl, Bool, Option, some, Result, ok}
use agenstfer_agi.Json.{Json, ℤ}
use agenstfer_agi.Registry.Rows.{WorkflowDefinitionRow}
use agenstfer_agi.Policy.Profiles.{Settings}
use agenstfer_agi.Runtime.Conditions.{Failure}
use agenstfer_agi.Runtime.Engine.{Executor}
use agenstfer_agi.Runtime.Graph.{Invoke}
use agenstfer_agi.Runtime.Tables.{RunRow, Tables, run_with_key}
use agenstfer_agi.Runtime.Start.{Started, start_persisted_workflow, start_unless}

pub record StartService : Type 0 where
  pub start : WorkflowDefinitionRow → String → Option String → Json → Bool → Tables → Started
  pub known :
      (row : WorkflowDefinitionRow) (key : String) (actor_id : Option String) (input_json : Json)
      → (execute_async : Bool) (db : Tables) (run : RunRow) → run_with_key key db.runs ≡ some run
      → start row key actor_id input_json execute_async db ≡ (db, ok run)

unfoldable pub persisted_service :
    (isalnum : String → Bool) (py_str : Json → String) (py_int : Json → Option ℤ)
    → (execute : RunRow → Executor) (takes : List String → Bool) (ainvoke : Invoke)
      (scope : Tables → Result Failure String)
    → (settings : Settings) (new_id : String → String) → StartService
unfolding start_persisted_workflow start_unless
persisted_service isalnum py_str py_int execute takes ainvoke scope settings new_id = record {
  start =
      start_persisted_workflow isalnum py_str py_int execute takes ainvoke scope settings new_id;
  known = λ row key actor_id input_json execute_async db run h. rw h refl;
}
