-- ===== src/Events/Samples.antt =====
-- A growth signal that arrives twice.
use agenstfer_agi.Base.{String, ◌≡◌, refl, none, some, [], ◌∷◌}
use agenstfer_agi.Json.{null}
use agenstfer_agi.Workflow.Triggers.{default_trigger_rules}
use agenstfer_agi.Registry.Rows.{published, WorkflowDefinitionRow}
use agenstfer_agi.Events.{EventStore, event_with_key, dispatches_of, ingest_webhook_event}
use agenstfer_agi.Events.Ingest.{ingest_repeats}

abbrev target : WorkflowDefinitionRow
target = record {
  id = "builtin-growth-diagnostic";
  version = 3;
  name = "Growth Diagnostic";
  status = published;
  definition = record {
    id = "builtin-growth-diagnostic";
    name = "Growth Diagnostic";
    version = 3;
    status = "published";
    nodes = [];
    edges = [];
  };
  created_by = none;
}

abbrev store : EventStore
store = record { inbox = []; queue = []; workflows = target ∷ [] }

abbrev named : String → String
named rule = rule

ingest_repeats_example :
    (let (db', row, dispatches) =
        ingest_webhook_event "evt-1" named default_trigger_rules "crm" "growth.opportunity_detected"
          null
          (some "key-1")
          store in
      ingest_webhook_event "evt-2" named default_trigger_rules "crm" "growth.opportunity_detected"
        null
        (some "key-1")
        db'
      ≡ (db', row, dispatches))
unfolding event_with_key dispatches_of
ingest_repeats_example =
    ingest_repeats "evt-1" "evt-2" named named default_trigger_rules default_trigger_rules "crm"
      "crm" "growth.opportunity_detected" "growth.opportunity_detected" null null "key-1" store refl
      refl refl
