-- ===== src/Events/Ingest.antt =====
-- An event that comes again under its idempotency key.
use agenstfer_agi.Base.{
  String, ◌≡◌, refl, ap, ◌∙◌, false, Option, none, some, List, [], ◌∷◌, ◌++◌, ◌==◌, eq_iff, arith,
}
use agenstfer_agi.Json.{Json}
use agenstfer_agi.Workflow.Triggers.{TriggerRule, match_rules}
use agenstfer_agi.Registry.Rows.{WorkflowDefinitionRow}
use agenstfer_agi.Events.{
  EventInbox, EventDispatchQueue, EventStore, event_with_key, dispatches_of, dispatch_to,
  dispatches_for, published_workflow, add_event, inbox_row, ingest_webhook_event,
}

event_with_key-append :
    (key : String) (es : List EventInbox) (e : EventInbox)
    → event_with_key key es ≡ none
    → e.idempotency_key ≡ some key
    → event_with_key key (es ++ e ∷ []) ≡ some e
unfolding event_with_key
event_with_key-append key [] e fresh own = ground (arith, eq_iff key key)
event_with_key-append key (x ∷ es) e fresh own = ground (arith, event_with_key-append key es e)

dispatches_of-append :
    (event_id : String) (ds new : List EventDispatchQueue)
    → dispatches_of event_id ds ≡ []
    → dispatches_of event_id (ds ++ new) ≡ dispatches_of event_id new
unfolding dispatches_of
dispatches_of-append event_id [] new fresh = refl
dispatches_of-append event_id (d ∷ ds) new fresh =
    ground (arith, dispatches_of-append event_id ds new)

dispatch_to-event_id :
    (event_id : String) (dispatch_id : String → String) (rule : TriggerRule)
    → (o : Option WorkflowDefinitionRow)
    → (dispatch_to event_id dispatch_id rule o).event_id ≡ event_id
unfolding dispatch_to
dispatch_to-event_id event_id dispatch_id rule none = refl
dispatch_to-event_id event_id dispatch_id rule (some w) = refl

dispatches_of-dispatches_for :
    (event_id : String) (dispatch_id : String → String) (rules : List TriggerRule)
    → (workflows : List WorkflowDefinitionRow)
    → dispatches_of event_id (dispatches_for event_id dispatch_id rules workflows)
      ≡ dispatches_for event_id dispatch_id rules workflows
unfolding dispatches_of dispatches_for
dispatches_of-dispatches_for event_id dispatch_id [] workflows = refl
dispatches_of-dispatches_for event_id dispatch_id (rule ∷ rules) workflows = ground (
  arith,
  dispatch_to-event_id event_id dispatch_id rule
      (published_workflow rule.target_workflow_id workflows),
  eq_iff event_id event_id,
  dispatches_of-dispatches_for event_id dispatch_id rules workflows,
)

module _ (event_id : String) (dispatch_id : String → String) (rules : List TriggerRule)
    (source_id event_type : String) (payload : Json) (key : String) (db : EventStore) where
  ingest-new :
      (key == "") ≡ false
      → event_with_key key db.inbox ≡ none
      → ingest_webhook_event event_id dispatch_id rules source_id event_type payload (some key) db
        ≡ add_event event_id dispatch_id rules source_id event_type payload (some key) db
  unfolding ingest_webhook_event
  ingest-new some_key fresh = cc

  ingest-known :
      (e : EventInbox)
      → (key == "") ≡ false
      → event_with_key key db.inbox ≡ some e
      → ingest_webhook_event event_id dispatch_id rules source_id event_type payload (some key) db
        ≡ (db, e, dispatches_of e.id db.queue)
  unfolding ingest_webhook_event
  ingest-known e some_key known = cc

-- After an event came under a key that is not empty and is new, with an id that no dispatch has, a
-- call under the same key, whatever ids it draws and whatever rules, source, type and payload it
-- has, stores nothing and gives the first answer.
pub ingest_repeats :
    (event_id event_id' : String) (dispatch_id dispatch_id' : String → String)
    → (rules rules' : List TriggerRule) (source_id source_id' event_type event_type' : String)
    → (payload payload' : Json) (key : String) (db : EventStore) → (key == "") ≡ false
    → event_with_key key db.inbox ≡ none
    → dispatches_of event_id db.queue ≡ []
    → (let (db', row, dispatches) =
          ingest_webhook_event event_id dispatch_id rules source_id event_type payload
            (some key)
            db in
        ingest_webhook_event event_id' dispatch_id' rules' source_id' event_type' payload'
          (some key)
          db'
        ≡ (db', row, dispatches))
unfolding inbox_row add_event
ingest_repeats event_id event_id' dispatch_id dispatch_id' rules rules' source_id source_id'
      event_type event_type' payload payload' key db some_key fresh new_id =
    let dispatches =
      dispatches_for event_id dispatch_id (match_rules event_type rules) db.workflows in
    let row =
      inbox_row event_id dispatch_id rules source_id event_type payload (some key) dispatches in
    let db' = record db { inbox = db.inbox ++ row ∷ []; queue = db.queue ++ dispatches } in
    rw (ingest-new event_id dispatch_id rules source_id event_type payload key db some_key fresh) (
      ingest-known event_id' dispatch_id' rules' source_id' event_type' payload' key db' row
        some_key (event_with_key-append key db.inbox row fresh refl)
      ∙ ap (λ ds. (db', row, ds))
          (dispatches_of-append event_id db.queue dispatches new_id
            ∙ dispatches_of-dispatches_for event_id dispatch_id (match_rules event_type rules)
                db.workflows))
