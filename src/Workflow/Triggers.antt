-- ===== src/Workflow/Triggers.antt =====
-- workflow/triggers.py: the rules that turn an event into runs. Names and descriptions are left out.
use agenstfer_agi.Base.{String, Bool, true, ◌&&◌, List, [], ◌∷◌, ◌==◌, if◌then◌else◌}

pub record TriggerRule : Type 0 where
  pub id : String
  pub event_type : String
  pub target_workflow_id : String
  pub enabled : Bool

abbrev pub default_trigger_rules : List TriggerRule
default_trigger_rules =
    record {
      id = "trig-growth-diagnostic";
      event_type = "growth.opportunity_detected";
      target_workflow_id = "builtin-growth-diagnostic";
      enabled = true;
    }
    ∷ record {
      id = "trig-crm-hygiene";
      event_type = "crm.account_updated";
      target_workflow_id = "builtin-crm-erp-hygiene";
      enabled = true;
    }
    ∷ record {
      id = "trig-inbound-triage";
      event_type = "inbound.form_submitted";
      target_workflow_id = "builtin-inbound-triage";
      enabled = true;
    }
    ∷ record {
      id = "trig-battlecard-gen";
      event_type = "competitor.signal_detected";
      target_workflow_id = "builtin-competitive-battlecard";
      enabled = true;
    }
    ∷ record {
      id = "trig-lead-discovery";
      event_type = "lead.opportunity_detected";
      target_workflow_id = "builtin-lead-discovery";
      enabled = true;
    }
    ∷ []

unfoldable pub match_rules : String → List TriggerRule → List TriggerRule
match_rules event_type [] = []
match_rules event_type (rule ∷ rules) =
    let rest = match_rules event_type rules in
    if rule.enabled && rule.event_type == event_type then rule ∷ rest else rest
