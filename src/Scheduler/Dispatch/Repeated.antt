-- ===== src/Scheduler/Dispatch/Repeated.antt =====
-- Two items of one event in the queue.
use agenstfer_agi.Base.{
  String, ◌≡◌, refl, ap, ◌∙◌, Bool, true, false, Option, none, some, List, [], ◌∷◌, ◌++◌, Result,
  ok, joined, inl, inr,
}
use agenstfer_agi.Json.{Json, ℤ}
use agenstfer_agi.Registry.Rows.{WorkflowDefinitionRow, is_published}
use agenstfer_agi.Policy.Profiles.{Settings}
use agenstfer_agi.Events.{dispatched, EventInbox, EventDispatchQueue, is_queued}
use agenstfer_agi.Runtime.Conditions.{Failure}
use agenstfer_agi.Runtime.Engine.{Executor}
use agenstfer_agi.Runtime.Graph.{Invoke}
use agenstfer_agi.Runtime.Tables.{RunRow, Tables, run_with_key, run_at}
use agenstfer_agi.Runtime.Start.{StartError, Started, start_persisted_workflow}
use agenstfer_agi.Runtime.Start.Service.{StartService, persisted_service}
use agenstfer_agi.Runtime.Start.Once.{start_once}
use agenstfer_agi.Runtime.Start.Found.{start-Leaves}
use agenstfer_agi.Scheduler.Dispatch.{
  event_input, payload_of, event_at, target_row, after_start, send, send_queued,
  dispatch_queued_events,
}

-- The item after it was dispatched with a run.
abbrev pub sent_as : String → EventDispatchQueue → EventDispatchQueue
sent_as run_id item = record item { status = dispatched; workflow_run_id = some run_id }

dispatch_pair :
    (error_text : StartError → String) (service : StartService) (inbox : List EventInbox)
    → (item later : EventDispatchQueue) (w w' : WorkflowDefinitionRow) (db db' : Tables)
    → (run : RunRow) → is_queued item.status ≡ true
    → is_queued later.status ≡ true
    → later.event_id ≡ item.event_id
    → target_row item db.workflows ≡ some w
    → target_row later db'.workflows ≡ some w'
    → is_published w.status ≡ true
    → is_published w'.status ≡ true
    → service.start w
        (joined "event:" item.event_id)
        none
        (event_input item.event_id (payload_of (event_at item.event_id inbox)))
        false
        db
      ≡ (db', ok run)
    → run_with_key (joined "event:" item.event_id) db'.runs ≡ some run
    → dispatch_queued_events error_text service inbox (item ∷ later ∷ []) db
      ≡ (db', sent_as run.id item ∷ sent_as run.id later ∷ [], run.id ∷ run.id ∷ [])
unfolding dispatch_queued_events send_queued send after_start
dispatch_pair error_text service inbox item later w w' db db' run q q' same target target' open_
      open' starts known =
    let again =
      service.known w' (joined "event:" item.event_id) none
        (event_input item.event_id (payload_of (event_at item.event_id inbox))) false db' run
        known in
    rw (q, target, open_, starts, q', target', open', same, again) refl

-- The result of a call, given what the call returns.
same_run : (db : Tables) (x : Started) (a b : RunRow) → x ≡ (db, ok a) → x ≡ (db, ok b) → a ≡ b
same_run db x a b p q = cc

module _ (isalnum : String → Bool) (py_str : Json → String) (py_int : Json → Option ℤ)
    (execute : RunRow → Executor) (takes : List String → Bool) (ainvoke : Invoke)
    (scope : Tables → Result Failure String) (settings : Settings) (new_id : String → String) where
  only_run :
      (w w' : WorkflowDefinitionRow) (key : String) (input_json : Json) (db db' : Tables)
      (run : RunRow)
      → run_with_key key db.runs ≡ none
      → run_at (new_id key) db.runs ≡ none
      → run_with_key key db'.runs ≡ some run
      → start_persisted_workflow isalnum py_str py_int execute takes ainvoke scope settings new_id w
          key none input_json false db
        ≡ (db', ok run)
      → db'.runs ≡ db.runs ++ run ∷ []
  unfolding persisted_service
  only_run w w' key input_json db db' run new_key fresh known starts =
      let service =
        persisted_service isalnum py_str py_int execute takes ainvoke scope settings new_id in
      let once =
        start_once isalnum py_str py_int execute takes ainvoke scope settings new_id w w' key none
          none input_json input_json false false db new_key fresh in
      elim (rw starts at once) [
        | inl (e, stopped) ↦ cc
        | inr (stored, runs_are, key_is, id_is, again) ↦
            let same =
              same_run db' _ stored run again
                (service.known w' key none input_json false db' run known) in
            rw (← same) runs_are
      ]

  -- Two queued items of an event that has no run yet, the targets of both there and published,
  -- whatever workflows they are: if the start of the first target returns a run, then both items end
  -- dispatched with that run, under its id, and it is the only run that the dispatch adds.
  pub event_runs_once :
      (error_text : StartError → String) (inbox : List EventInbox)
      → (item later : EventDispatchQueue) (w w' : WorkflowDefinitionRow) (db db' : Tables)
      → (run : RunRow) → is_queued item.status ≡ true
      → is_queued later.status ≡ true
      → later.event_id ≡ item.event_id
      → target_row item db.workflows ≡ some w
      → target_row later db.workflows ≡ some w'
      → is_published w.status ≡ true
      → is_published w'.status ≡ true
      → run_with_key (joined "event:" item.event_id) db.runs ≡ none
      → run_at (new_id (joined "event:" item.event_id)) db.runs ≡ none
      → start_persisted_workflow isalnum py_str py_int execute takes ainvoke scope settings new_id w
          (joined "event:" item.event_id)
          none
          (event_input item.event_id (payload_of (event_at item.event_id inbox)))
          false
          db
        ≡ (db', ok run)
      → (dispatch_queued_events error_text
            (persisted_service isalnum py_str py_int execute takes ainvoke scope settings new_id)
            inbox
            (item ∷ later ∷ [])
            db
          ≡ (db', sent_as run.id item ∷ sent_as run.id later ∷ [], run.id ∷ run.id ∷ []))
        × (db'.runs ≡ db.runs ++ run ∷ [])
  unfolding persisted_service
  event_runs_once error_text inbox item later w w' db db' run q q' same target target' open_ open'
        new_key fresh starts =
      let key = joined "event:" item.event_id in
      let input = event_input item.event_id (payload_of (event_at item.event_id inbox)) in
      let leaves =
        start-Leaves db isalnum py_str py_int execute takes ainvoke scope settings new_id w key none
          input new_key fresh false in
      let (kept, found) = rw starts at leaves in
      let known = found run refl in
      (
        dispatch_pair error_text
            (persisted_service isalnum py_str py_int execute takes ainvoke scope settings new_id)
            inbox item later w w' db db' run q q' same target (ap (target_row later) kept ∙ target')
            open_ open' starts known,
        only_run w w' key input db db' run new_key fresh known starts,
      )
