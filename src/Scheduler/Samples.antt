-- ===== src/Scheduler/Samples.antt =====
-- Cron fields and expressions.
use agenstfer_agi.Base.{
  String, ◌≡◌, ◌↔◌, true, refl, ok, Option, none, ◌++◌, joined, false, Bool, some, List, [], ◌∷◌,
  ◌==◌, arith,
}
use agenstfer_agi.Base.Split.{split_on}
use agenstfer_agi.Json.{obj, end}
use agenstfer_agi.Approvals.State.{RunStatus}
use agenstfer_agi.Registry.Rows.{WorkflowDefinitionRow, published, is_published, row_at}
use agenstfer_agi.Events.{queued, EventDispatchQueue}
use agenstfer_agi.Runtime.Tables.{RunRow, Tables, run_with_key}
use agenstfer_agi.Runtime.Start.{StartError, Started}
use agenstfer_agi.Runtime.Start.Service.{StartService}
use agenstfer_agi.Scheduler.Due.{
  WorkflowSchedule, new_schedule, create_schedule, started_ids, fire_input, go_on, fire_key, fire,
  try_row, run_row, run_due_schedules,
}
use agenstfer_agi.Scheduler.Due.Ticks.{tick_repeats, created_fires}
use agenstfer_agi.Scheduler.Dispatch.{dispatch_queued_events}
use agenstfer_agi.Scheduler.Dispatch.Settled.{AllSettle, dispatch_settles}
use agenstfer_agi.Scheduler.Cron.{
  cron_fields_match, field_matches, any_part, part_results, matches_part, stepped_matches,
  base_matches, range_matches, single_matches, in_range, has_char, field_valid, cron_matches,
  schedule_valid, fields_valid, is_cron_part, all_cron_chars, part_valid, step_of, all_ints,
  values_valid, partition, int_of, natural, digits_from, cons_int, bounded, negated,
}
use agenstfer_agi.Scheduler.Cron.Fires.{SomeDay, fires_iff}
use agenstfer_agi.Scheduler.Cron.Valid.{Denotes, field_valid-Denotes}
use agenstfer_agi.Scheduler.Clock.{
  LocalTime, is_time, days_in_month, is_leap, local_weekday, weekday_of, days_of_months,
  days_before_year,
}

field_valid-Denotes_example : Denotes 0 59 "*/15,7"
unfolding field_valid part_valid step_of all_ints values_valid partition split_on int_of natural
    digits_from cons_int bounded negated
field_valid-Denotes_example = field_valid-Denotes 0 59 "*/15,7" (omega arith) refl

abbrev at_blanks : String → List String
at_blanks s = split_on b' ' s

abbrev known_zone : String → Bool
known_zone zone = zone == "Europe/Istanbul"

abbrev workflow : WorkflowDefinitionRow
workflow = record {
  id = "sample";
  version = 1;
  name = "Sample";
  status = published;
  definition = record {
    id = "sample";
    name = "Sample";
    version = 1;
    status = "published";
    nodes = [];
    edges = [];
  };
  created_by = none;
}

abbrev tables : Tables
tables = record { workflows = workflow ∷ []; agents = []; runs = []; candidates = [] }

abbrev sample_run : String → RunRow
sample_run key = record {
  id = key;
  idempotency_key = key;
  workflow_id = "sample";
  workflow_version = 1;
  model_profile = "mixed[]";
  agent_versions = [];
  created_by = none;
  run = record {
    status = RunStatus.running;
    current_step = none;
    input_json = obj end;
    output_json = none;
    error = none;
  };
  steps = [];
  approvals = [];
}

-- A start that only stores a run.
unfoldable store_run : Option RunRow → String → Tables → Started
store_run none key db = (record db { runs = db.runs ++ sample_run key ∷ [] }, ok (sample_run key))
store_run (some run) key db = (db, ok run)

abbrev plain_service : StartService
unfolding store_run
plain_service = record {
  start =
      λ row key actor_id input_json execute_async db. store_run (run_with_key key db.runs) key db;
  known = λ row key actor_id input_json execute_async db run h. rw h refl;
}

abbrev morning : LocalTime
unfolding is_time days_in_month
morning = record { year = 2026; month = 3; day = 2; hour = 8; minute = 30; exists = refl }

abbrev clock : String → LocalTime
clock zone = morning

abbrev stamp : String → String
stamp zone = "202603020830"

abbrev schedule : WorkflowSchedule
schedule = new_schedule "s1" workflow "*/15 8-18 * * 1-5" "Europe/Istanbul" none

abbrev fired_schedule : WorkflowSchedule
fired_schedule = record schedule { last_fire_key = some "s1:202603020830" }

abbrev with_run : Tables
with_run = record tables { runs = sample_run "schedule:s1:202603020830" ∷ [] }

first_tick :
    run_due_schedules plain_service at_blanks clock stamp (schedule ∷ []) tables
    ≡ (with_run, fired_schedule ∷ [], ok ("schedule:s1:202603020830" ∷ []))
unfolding run_due_schedules go_on run_row try_row fire row_at is_published store_run run_with_key
    cron_matches cron_fields_match field_matches any_part part_results matches_part stepped_matches
    base_matches range_matches single_matches in_range step_of partition has_char split_on int_of
    natural digits_from cons_int negated local_weekday weekday_of days_of_months days_before_year
    days_in_month is_leap morning
first_tick = refl

tick_repeats_example :
    run_due_schedules plain_service at_blanks clock stamp (fired_schedule ∷ []) tables
    ≡ (tables, fired_schedule ∷ [], ok [])
tick_repeats_example =
    tick_repeats plain_service at_blanks clock stamp (schedule ∷ []) (fired_schedule ∷ []) tables
      with_run tables ("schedule:s1:202603020830" ∷ []) first_tick

-- The schedule fires on 29 February.
created_fires_example :
    (t : LocalTime) × (t.month ≡ 2)
    × (t.day ≡ 29)
    × (let key = fire_key plain_service at_blanks (λ zone. t) stamp schedule in
        let (db', x) =
          plain_service.start workflow
            (joined "schedule:" key)
            none
            (fire_input "s1" key)
            false
            tables in
        run_due_schedules plain_service at_blanks (λ zone. t) stamp (schedule ∷ []) tables
        ≡ (db', record schedule { last_fire_key = some key } ∷ [], ok (started_ids x ++ [])))
unfolding create_schedule row_at is_published schedule_valid fields_valid is_cron_part
    all_cron_chars field_valid part_valid step_of all_ints values_valid partition split_on int_of
    natural digits_from cons_int bounded negated field_matches any_part part_results matches_part
    stepped_matches base_matches range_matches single_matches in_range has_char days_in_month
created_fires_example =
    created_fires plain_service at_blanks known_zone "s1" workflow "*/15 8-18 * * 1-5"
      "Europe/Istanbul" none [] (schedule ∷ []) schedule stamp workflow tables "*/15" "8-18" "*" "*"
      "1-5" 2 29 refl refl refl refl refl refl (omega arith)

abbrev item : String → String → EventDispatchQueue
item id target = record {
  id = id;
  event_id = "evt-1";
  trigger_rule_id = id;
  target_workflow_id = target;
  target_workflow_version = some 1;
  status = queued;
  workflow_run_id = none;
  error = none;
}

abbrev error_text : StartError → String
error_text e = "failed"

dispatch_settles_example :
    AllSettle
      (item "d1" "sample" ∷ item "d2" "gone" ∷ [])
      (dispatch_queued_events error_text plain_service []
        (item "d1" "sample" ∷ item "d2" "gone" ∷ [])
        tables).1
dispatch_settles_example =
    dispatch_settles error_text plain_service [] (item "d1" "sample" ∷ item "d2" "gone" ∷ []) tables

abbrev other : WorkflowDefinitionRow
other = record workflow { id = "other" }

-- A schedule for 29 February.
fires_iff_example :
    ((t : LocalTime) × (cron_matches at_blanks t "0 0 29 2 *" ≡ some true)) ↔ SomeDay "29" "2"
unfolding schedule_valid fields_valid is_cron_part all_cron_chars field_valid part_valid step_of
    all_ints values_valid partition split_on int_of natural digits_from cons_int bounded negated
fires_iff_example =
    fires_iff at_blanks known_zone "0 0 29 2 *" "Europe/Istanbul" "0" "0" "29" "2" "*" refl refl
