-- ===== src/Events.antt =====
-- workflow/events.py: ingest_webhook_event, with the rows of db.py that it writes. The ids that it
-- draws at random are parameters: the event's, and a dispatch's by its rule. The rows of a query
-- come in the order of the table. Timestamps are left out.
pub mod Ingest
mod Samples
use agenstfer_agi.Base.{
  ℕ, suc, String, Bool, true, false, ◌&&◌, Option, none, some, List, [], ◌∷◌, ◌++◌, ◌==◌,
  if◌then◌else◌, nat_beq,
}
use agenstfer_agi.Json.{Json}
use agenstfer_agi.Workflow.Triggers.{TriggerRule, match_rules}
use agenstfer_agi.Registry.Rows.{WorkflowDefinitionRow, is_published}

pub data InboxStatus : Type 0 where
  triggered no_match : InboxStatus

pub data DispatchStatus : Type 0 where
  queued skipped dispatched failed : DispatchStatus

pub record EventInbox : Type 0 where
  pub id : String
  pub source_id : String
  pub event_type : String
  pub idempotency_key : Option String
  pub payload : Json
  pub status : InboxStatus
  pub matched_rules_count : ℕ

pub record EventDispatchQueue : Type 0 where
  pub id : String
  pub event_id : String
  pub trigger_rule_id : String
  pub target_workflow_id : String
  pub target_workflow_version : Option ℕ
  pub status : DispatchStatus
  pub workflow_run_id : Option String
  pub error : Option String

pub record EventStore : Type 0 where
  pub inbox : List EventInbox
  pub queue : List EventDispatchQueue
  pub workflows : List WorkflowDefinitionRow

abbrev pub holds_key : String → Option String → Bool
holds_key key none = false
holds_key key (some k) = k == key

unfoldable pub event_with_key : String → List EventInbox → Option EventInbox
event_with_key key [] = none
event_with_key key (e ∷ es) =
    if holds_key key e.idempotency_key then some e else event_with_key key es

-- `existing` of the query on the key, which an empty key skips.
unfoldable pub existing_event : Option String → List EventInbox → Option EventInbox
unfolding event_with_key
existing_event none events = none
existing_event (some key) events = if key == "" then none else event_with_key key events

unfoldable pub dispatches_of : String → List EventDispatchQueue → List EventDispatchQueue
dispatches_of event_id [] = []
dispatches_of event_id (d ∷ ds) =
    let rest = dispatches_of event_id ds in if d.event_id == event_id then d ∷ rest else rest

unfoldable pub published_workflow :
    String → List WorkflowDefinitionRow → Option WorkflowDefinitionRow
unfolding is_published
published_workflow id [] = none
published_workflow id (row ∷ rows) =
    if row.id == id && is_published row.status then some row else published_workflow id rows

unfoldable pub is_queued : DispatchStatus → Bool
is_queued queued = true
is_queued _ = false

unfoldable pub queued_count : List EventDispatchQueue → ℕ
unfolding is_queued
queued_count [] = 0
queued_count (d ∷ ds) = let rest = queued_count ds in if is_queued d.status then suc rest else rest

module _ (event_id : String) (dispatch_id : String → String) where
  unfoldable pub dispatch_to : TriggerRule → Option WorkflowDefinitionRow → EventDispatchQueue
  dispatch_to rule none = record {
    id = dispatch_id rule.id;
    event_id = event_id;
    trigger_rule_id = rule.id;
    target_workflow_id = rule.target_workflow_id;
    target_workflow_version = none;
    status = skipped;
    workflow_run_id = none;
    error = some "Target workflow is not published";
  }
  dispatch_to rule (some workflow) = record {
    id = dispatch_id rule.id;
    event_id = event_id;
    trigger_rule_id = rule.id;
    target_workflow_id = rule.target_workflow_id;
    target_workflow_version = some workflow.version;
    status = queued;
    workflow_run_id = none;
    error = none;
  }

  unfoldable pub dispatches_for :
      List TriggerRule → List WorkflowDefinitionRow → List EventDispatchQueue
  unfolding dispatch_to published_workflow
  dispatches_for [] workflows = []
  dispatches_for (rule ∷ rules) workflows =
      dispatch_to rule (published_workflow rule.target_workflow_id workflows)
      ∷ dispatches_for rules workflows

  module _ (rules : List TriggerRule) (source_id event_type : String) (payload : Json)
      (idempotency_key : Option String) where
    unfoldable pub inbox_row : List EventDispatchQueue → EventInbox
    unfolding queued_count
    inbox_row dispatches = record {
      id = event_id;
      source_id = source_id;
      event_type = event_type;
      idempotency_key = idempotency_key;
      payload = payload;
      status = if nat_beq (queued_count dispatches) 0 then no_match else triggered;
      matched_rules_count = queued_count dispatches;
    }

    unfoldable pub add_event : EventStore → EventStore × EventInbox × List EventDispatchQueue
    unfolding inbox_row dispatches_for match_rules
    add_event db =
        let dispatches = dispatches_for (match_rules event_type rules) db.workflows in
        let row = inbox_row dispatches in
        (
          record db { inbox = db.inbox ++ row ∷ []; queue = db.queue ++ dispatches },
          row,
          dispatches,
        )

    unfoldable pub ingest_webhook_event :
        EventStore → EventStore × EventInbox × List EventDispatchQueue
    unfolding existing_event add_event dispatches_of
    ingest_webhook_event db = elim (existing_event idempotency_key db.inbox) [
      | none ↦ add_event db
      | some existing ↦ (db, existing, dispatches_of existing.id db.queue)
    ]
