-- ===== src/Scheduler/Due.antt =====
-- run_due_schedules of workflow/scheduler.py and create_schedule of workflow/registry_service.py.
-- `clock` and `stamp` are the instant of a tick in a time zone: its local time, and its text in the
-- format `%Y%m%d%H%M`. The id of a new schedule, which is drawn at random, is a parameter.
pub mod Ticks
use agenstfer_agi.Base.{
  ℕ, String, Bool, true, false, ◌&&◌, not, Option, none, some, List, [], ◌∷◌, ◌++◌, ◌==◌,
  if◌then◌else◌, Result, ok, err, joined,
}
use agenstfer_agi.Json.{Json, str, obj, field, end}
use agenstfer_agi.Registry.Rows.{WorkflowDefinitionRow, is_published, row_at}
use agenstfer_agi.Runtime.Conditions.{Failure, value_error}
use agenstfer_agi.Runtime.Tables.{RunRow, Tables}
use agenstfer_agi.Runtime.Start.{StartError}
use agenstfer_agi.Runtime.Start.Service.{StartService}
use agenstfer_agi.Scheduler.Clock.{LocalTime}
use agenstfer_agi.Scheduler.Cron.{cron_matches, schedule_valid}

pub record WorkflowSchedule : Type 0 where
  pub id : String
  pub workflow_id : String
  pub workflow_version : ℕ
  pub cron : String
  pub timezone : String
  pub enabled : Bool
  pub last_fire_key : Option String
  pub created_by : Option String

abbrev pub new_schedule :
    String → WorkflowDefinitionRow → String → String → Option String → WorkflowSchedule
new_schedule id workflow cron timezone actor_id = record {
  id = id;
  workflow_id = workflow.id;
  workflow_version = workflow.version;
  cron = cron;
  timezone = timezone;
  enabled = true;
  last_fire_key = none;
  created_by = actor_id;
}

unfoldable pub create_schedule :
    (String → List String)
    → (String → Bool)
    → String
    → WorkflowDefinitionRow
    → String
    → String
    → Option String
    → List WorkflowSchedule
    → List WorkflowSchedule × Result Failure WorkflowSchedule
unfolding schedule_valid is_published
create_schedule split is_zone id workflow cron timezone actor_id rows =
    let row = new_schedule id workflow cron timezone actor_id in
    if not (is_published workflow.status)
    then (rows, err value_error)
    else if not (schedule_valid split is_zone cron timezone)
    then (rows, err value_error)
    else (rows ++ row ∷ [], ok row)

abbrev pub fired_under : String → Option String → Bool
fired_under key none = false
fired_under key (some k) = k == key

abbrev pub started_ids : Result StartError RunRow → List String
started_ids (ok run) = run.id ∷ []
started_ids (err e) = []

abbrev pub fire_input : String → String → Json
fire_input id key = obj (field "schedule_id" (str id) (field "fire_key" (str key) end))

abbrev pub Tick : Type 0
Tick = Tables × List WorkflowSchedule × Result Failure (List String)

abbrev pub Row : Type 0
Row = Tables × WorkflowSchedule × Result Failure (List String)

abbrev pub before : WorkflowSchedule → List String → Tick → Tick
before s ids (db, ss, ok more) = (db, s ∷ ss, ok (ids ++ more))
before s ids (db, ss, err e) = (db, s ∷ ss, err e)

-- The loop behind a row, unless that has raised.
unfoldable pub go_on : Row → List WorkflowSchedule → (Tables → Tick) → Tick
go_on (db, s, ok ids) ss next = before s ids (next db)
go_on (db, s, err e) ss next = (db, s ∷ ss, err e)

module _ (service : StartService) (split : String → List String) (clock : String → LocalTime)
    (stamp : String → String) where
  abbrev pub fire_key : WorkflowSchedule → String
  fire_key s = joined s.id (joined ":" (stamp s.timezone))

  -- A row whose minute has come, by the row of its workflow.
  unfoldable pub fire : WorkflowSchedule → Option WorkflowDefinitionRow → Tables → Row
  unfolding is_published
  fire s none db = (db, record s { enabled = false }, ok [])
  fire s (some workflow) db =
      let key = fire_key s in
      let (db', x) =
        service.start workflow (joined "schedule:" key) s.created_by (fire_input s.id key) false
          db in
      if not (is_published workflow.status)
      then (db, record s { enabled = false }, ok [])
      else (db', record s { last_fire_key = some key }, ok (started_ids x))

  -- An enabled row, by what cron_matches ended in.
  unfoldable pub try_row : WorkflowSchedule → Option Bool → Tables → Row
  unfolding fire row_at
  try_row s none db = (db, s, err value_error)
  try_row s (some false) db = (db, s, ok [])
  try_row s (some true) db =
      if fired_under (fire_key s) s.last_fire_key
      then (db, s, ok [])
      else fire s (row_at s.workflow_id s.workflow_version db.workflows) db

  unfoldable pub run_row : WorkflowSchedule → Tables → Row
  unfolding try_row cron_matches
  run_row s db =
      if s.enabled
      then try_row s (cron_matches split (clock s.timezone) s.cron) db
      else (db, s, ok [])

  -- The rows in the order of the query, those included that are not enabled.
  unfoldable pub run_due_schedules : List WorkflowSchedule → Tables → Tick
  unfolding run_row go_on
  run_due_schedules [] db = (db, [], ok [])
  run_due_schedules (s ∷ ss) db = go_on (run_row s db) ss (run_due_schedules ss)
