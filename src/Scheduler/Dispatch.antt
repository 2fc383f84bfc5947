-- ===== src/Scheduler/Dispatch.antt =====
-- dispatch_queued_events of workflow/scheduler.py. The text of an exception is a parameter; the time
-- of a dispatch is left out.
pub mod Settled
pub mod Repeated
mod Samples
use agenstfer_agi.Base.{
  ℕ, String, Bool, true, false, not, Option, none, some, List, [], ◌∷◌, ◌++◌, ◌==◌, if◌then◌else◌,
  Result, ok, err, joined,
}
use agenstfer_agi.Json.{Json, str, obj, field, end}
use agenstfer_agi.Registry.Rows.{WorkflowDefinitionRow, is_published, row_at}
use agenstfer_agi.Events.{
  DispatchStatus, skipped, dispatched, failed, EventInbox, EventDispatchQueue, published_workflow,
  is_queued,
}
use agenstfer_agi.Runtime.Tables.{RunRow, Tables}
use agenstfer_agi.Runtime.Start.{StartError, Started}
use agenstfer_agi.Runtime.Start.Service.{StartService}

-- `db.get(EventInbox, id)`
unfoldable pub event_at : String → List EventInbox → Option EventInbox
event_at id [] = none
event_at id (e ∷ es) = if e.id == id then some e else event_at id es

-- `inbox_event.payload if inbox_event else {}`
abbrev pub payload_of : Option EventInbox → Json
payload_of none = obj end
payload_of (some e) = e.payload

unfoldable pub target_row :
    EventDispatchQueue → List WorkflowDefinitionRow → Option WorkflowDefinitionRow
unfolding published_workflow row_at
target_row item workflows = elim item.target_workflow_version [
  | none ↦ published_workflow item.target_workflow_id workflows
  | some version ↦ row_at item.target_workflow_id version workflows
]

abbrev pub event_input : String → Json → Json
event_input event_id payload = obj (field "event_id" (str event_id) (field "payload" payload end))

abbrev pub event_key : EventDispatchQueue → String
event_key item = joined "event:" item.event_id

abbrev pub skip : EventDispatchQueue → EventDispatchQueue
skip item = record item { status = skipped; error = some "Target workflow is not published" }

abbrev pub Sent : Type 0
Sent = Tables × EventDispatchQueue × List String

module _ (error_text : StartError → String) where
  unfoldable pub after_start : EventDispatchQueue → Started → Sent
  after_start item (db, ok run) =
      (db, record item { status = dispatched; workflow_run_id = some run.id }, run.id ∷ [])
  after_start item (db, err e) =
      (db, record item { status = failed; error = some (error_text e) }, [])

  module _ (service : StartService) (inbox : List EventInbox) where
    -- A queued item, by the row of its target.
    unfoldable pub send : EventDispatchQueue → Option WorkflowDefinitionRow → Tables → Sent
    unfolding after_start is_published event_at
    send item none db = (db, skip item, [])
    send item (some w) db =
        if not (is_published w.status)
        then (db, skip item, [])
        else after_start item (
            service.start w (event_key item) none
              (event_input item.event_id (payload_of (event_at item.event_id inbox))) false db)

    unfoldable pub send_queued : EventDispatchQueue → Tables → Sent
    unfolding send is_queued target_row
    send_queued item db =
        if is_queued item.status
        then send item (target_row item db.workflows) db
        else (db, item, [])

    -- The items in the order of the query, those included that are not queued.
    unfoldable pub dispatch_queued_events :
        List EventDispatchQueue → Tables → Tables × List EventDispatchQueue × List String
    unfolding send_queued
    dispatch_queued_events [] db = (db, [], [])
    dispatch_queued_events (item ∷ items) db =
        let (d, item', ids) = send_queued item db in
        let (db', items', more) = dispatch_queued_events items d in
        (db', item' ∷ items', ids ++ more)
