-- ===== src/Scheduler/Due/Ticks.antt =====
-- The ticks of the scheduler.
use agenstfer_agi.Base.{
  ℕ, String, ◌≡◌, refl, sym, ap, ◌≤◌, Bool, true, false, Option, none, some, List, [], ◌∷◌, ◌++◌,
  if◌then◌else◌, ok, err, eq_refl, Bool-cases, inl, inr, joined,
}
use agenstfer_agi.Registry.Rows.{WorkflowDefinitionRow, is_published, row_at}
use agenstfer_agi.Runtime.Tables.{Tables}
use agenstfer_agi.Runtime.Start.Service.{StartService}
use agenstfer_agi.Scheduler.Clock.{LocalTime, days_in_month}
use agenstfer_agi.Scheduler.Cron.{field_matches, cron_matches, schedule_valid}
use agenstfer_agi.Scheduler.Cron.Fires.{schedule_fires}
use agenstfer_agi.Scheduler.Due.{
  WorkflowSchedule, new_schedule, create_schedule, fired_under, started_ids, fire_input, Tick, Row,
  before, go_on, fire_key, fire, try_row, run_row, run_due_schedules,
}

same_or : (b : Bool) (x y : Row) → x ≡ y → (if b then x else y) ≡ y
same_or true x y h = h
same_or false x y h = refl

module _ (service : StartService) (split : String → List String) (clock : String → LocalTime)
    (stamp : String → String) where
  -- The row does nothing at this instant, whatever the tables are.
  abbrev Quiet : WorkflowSchedule → Type 0
  Quiet s = (db : Tables) → run_row service split clock stamp s db ≡ (db, s, ok [])

  try_row_idles :
      (s : WorkflowSchedule)
      → ((db : Tables)
          → try_row service split clock stamp s (cron_matches split (clock s.timezone) s.cron) db
            ≡ (db, s, ok []))
      → Quiet s
  unfolding run_row
  try_row_idles s h = λ db. same_or s.enabled _ (db, s, ok []) (h db)

  fire-Quiet :
      (s s' : WorkflowSchedule) (o : Option WorkflowDefinitionRow) (db db' : Tables)
      (ids : List String)
      → cron_matches split (clock s.timezone) s.cron ≡ some true
      → fire service split clock stamp s o db ≡ (db', s', ok ids)
      → Quiet s'
  unfolding fire try_row run_row
  fire-Quiet s s' none db db' ids due h =
      let is_s : record s { enabled = false } ≡ s' = ap (λ (x : Row). x.1) h in
      rw (← is_s) (λ d. refl)
  fire-Quiet s s' (some w) db db' ids due h = elim (Bool-cases (is_published w.status)) [
    | inl e ↦
        let h' = rw e at h in
        let key = fire_key service split clock stamp s in
        let is_s : record s { last_fire_key = some key } ≡ s' = ap (λ (x : Row). x.1) h' in
        rw (← is_s)
          (try_row_idles (record s { last_fire_key = some key }) (λ d. rw (due, eq_refl key) refl))
    | inr e ↦
        let h' = rw e at h in
        let is_s : record s { enabled = false } ≡ s' = ap (λ (x : Row). x.1) h' in
        rw (← is_s) (λ d. refl)
  ]

  unfired-Quiet :
      (s s' : WorkflowSchedule) (b : Bool) (o : Option WorkflowDefinitionRow) (db db' : Tables)
      → (ids : List String) → cron_matches split (clock s.timezone) s.cron ≡ some true
      → fired_under (fire_key service split clock stamp s) s.last_fire_key ≡ b
      → (if b then (db, s, ok []) else fire service split clock stamp s o db) ≡ (db', s', ok ids)
      → Quiet s'
  unfolding try_row
  unfired-Quiet s s' true o db db' ids due fired h =
      let is_s : s ≡ s' = ap (λ (x : Row). x.1) h in
      rw (← is_s) (try_row_idles s (λ d. rw (due, fired) refl))
  unfired-Quiet s s' false o db db' ids due fired h = fire-Quiet s s' o db db' ids due h

  try_row-Quiet :
      (s s' : WorkflowSchedule) (o : Option Bool) (db db' : Tables) (ids : List String)
      → cron_matches split (clock s.timezone) s.cron ≡ o
      → try_row service split clock stamp s o db ≡ (db', s', ok ids)
      → Quiet s'
  unfolding try_row
  try_row-Quiet s s' none db db' ids due h = cc
  try_row-Quiet s s' (some false) db db' ids due h =
      let is_s : s ≡ s' = ap (λ (x : Row). x.1) h in
      rw (← is_s) (try_row_idles s (λ d. rw due refl))
  try_row-Quiet s s' (some true) db db' ids due h = unfired-Quiet s s' _ _ db db' ids due refl h

  enabled-Quiet :
      (s s' : WorkflowSchedule) (b : Bool) (o : Option Bool) (db db' : Tables) (ids : List String)
      → s.enabled ≡ b
      → cron_matches split (clock s.timezone) s.cron ≡ o
      → (if b then try_row service split clock stamp s o db else (db, s, ok [])) ≡ (db', s', ok ids)
      → Quiet s'
  unfolding run_row
  enabled-Quiet s s' true o db db' ids enabled due h = try_row-Quiet s s' o db db' ids due h
  enabled-Quiet s s' false o db db' ids enabled due h =
      let is_s : s ≡ s' = ap (λ (x : Row). x.1) h in rw (← is_s) (λ d. simp enabled)

  run_row-Quiet :
      (s s' : WorkflowSchedule) (db db' : Tables) (ids : List String)
      → run_row service split clock stamp s db ≡ (db', s', ok ids)
      → Quiet s'
  unfolding run_row
  run_row-Quiet s s' db db' ids h = enabled-Quiet s s' _ _ db db' ids refl refl h

  -- The loop behind a row ends without an exception.
  rest_of :
      (s : WorkflowSchedule) (one : List String) (y : Tick) (ss' : List WorkflowSchedule)
      → (db' : Tables) (ids : List String) → before s one y ≡ (db', ss', ok ids)
      → (rest : List WorkflowSchedule) × (more : List String) × (y ≡ (db', rest, ok more))
        × (ss' ≡ s ∷ rest)
  rest_of s one (db, rest, err e) ss' db' ids h = cc
  rest_of s one (db, rest, ok more) ss' db' ids h =
      let db_is : db ≡ db' = ap (λ (x : Tick). x.0) h in
      let ss_are : s ∷ rest ≡ ss' = ap (λ (x : Tick). x.1) h in
      (rest, more, rw db_is refl, sym ss_are)

  first_row :
      (x : Row) (ss ss' : List WorkflowSchedule) (next : Tables → Tick) (db' : Tables)
      → (ids : List String) → go_on x ss next ≡ (db', ss', ok ids)
      → (db : Tables) × (s : WorkflowSchedule) × (one : List String) × (rest : List
          WorkflowSchedule)
        × (more : List String) × (x ≡ (db, s, ok one))
        × (next db ≡ (db', rest, ok more))
        × (ss' ≡ s ∷ rest)
  unfolding go_on
  first_row (db, s, err e) ss ss' next db' ids h = cc
  first_row (db, s, ok one) ss ss' next db' ids h =
      let (rest, more, next_is, ss_are) = rest_of s one (next db) ss' db' ids h in
      (db, s, one, rest, more, refl, next_is, ss_are)

  -- When a tick has ended without an exception, another one at the same instant, on whatever tables,
  -- starts nothing and changes nothing.
  pub tick_repeats :
      (ss ss' : List WorkflowSchedule) (db db' d : Tables) (ids : List String)
      → run_due_schedules service split clock stamp ss db ≡ (db', ss', ok ids)
      → run_due_schedules service split clock stamp ss' d ≡ (d, ss', ok [])
  unfolding run_due_schedules go_on
  tick_repeats [] ss' db db' d ids h =
      let ss_are : [] ≡ ss' = ap (λ (x : Tick). x.1) h in rw (← ss_are) refl
  tick_repeats (s ∷ ss) ss' db db' d ids h =
      let (d₁, s', one, rest, more, first, next_is, ss_are) =
        first_row (run_row service split clock stamp s db) ss ss'
          (run_due_schedules service split clock stamp ss) db' ids h in
      rw (ss_are, run_row-Quiet s s' db d₁ one first d, tick_repeats ss rest d₁ db' d more next_is)
        refl

created_row :
    (split : String → List String) (is_zone : String → Bool) (id : String)
    → (workflow : WorkflowDefinitionRow) (cron timezone : String) (actor_id : Option String)
    → (rows rows' : List WorkflowSchedule) (row : WorkflowSchedule)
    → create_schedule split is_zone id workflow cron timezone actor_id rows ≡ (rows', ok row)
    → (row ≡ new_schedule id workflow cron timezone actor_id)
      × (schedule_valid split is_zone cron timezone ≡ true)
unfolding create_schedule
created_row split is_zone id workflow cron timezone actor_id rows rows' row h =
    elim (Bool-cases (is_published workflow.status)) [
      | inl e ↦ elim (Bool-cases (schedule_valid split is_zone cron timezone)) [
        | inl v ↦ let h' = rw (e, v) at h in (cc, v)
        | inr v ↦ absurd (let h' = rw (e, v) at h in cc)
      ]
      | inr e ↦ absurd (let h' = rw e at h in cc)
    ]

due_row :
    (service : StartService) (split : String → List String) (t : LocalTime)
    (stamp : String → String)
    → (s : WorkflowSchedule) (w : WorkflowDefinitionRow) (db : Tables) → s.enabled ≡ true
    → s.last_fire_key ≡ none
    → cron_matches split t s.cron ≡ some true
    → row_at s.workflow_id s.workflow_version db.workflows ≡ some w
    → is_published w.status ≡ true
    → (let key = fire_key service split (λ zone. t) stamp s in
        let (db', x) =
          service.start w (joined "schedule:" key) s.created_by (fire_input s.id key) false db in
        run_due_schedules service split (λ zone. t) stamp (s ∷ []) db
        ≡ (db', record s { last_fire_key = some key } ∷ [], ok (started_ids x ++ [])))
unfolding run_due_schedules go_on run_row try_row fire
due_row service split t stamp s w db enabled unfired due known open_ =
    simp (enabled, unfired, due, known, open_)

-- A schedule that was created has, on each day of a leap year that its fields of the day and of the
-- month match, a local time at which a tick over its row starts its workflow, if the row of that is
-- there and published, and records the minute.
pub created_fires :
    (service : StartService) (split : String → List String) (is_zone : String → Bool) (id : String)
    → (workflow : WorkflowDefinitionRow) (cron timezone : String) (actor_id : Option String)
    → (rows rows' : List WorkflowSchedule) (row : WorkflowSchedule) (stamp : String → String)
    → (w : WorkflowDefinitionRow) (db : Tables) (a b c d e : String) (month day : ℕ)
    → create_schedule split is_zone id workflow cron timezone actor_id rows ≡ (rows', ok row)
    → row_at workflow.id workflow.version db.workflows ≡ some w
    → is_published w.status ≡ true
    → split cron ≡ a ∷ b ∷ c ∷ d ∷ e ∷ []
    → field_matches day c 1 31 ≡ true
    → field_matches month d 1 12 ≡ true
    → day ≤ days_in_month 2000 month
    → (t : LocalTime) × (t.month ≡ month)
      × (t.day ≡ day)
      × (let key = fire_key service split (λ zone. t) stamp row in
          let (db', x) =
            service.start w (joined "schedule:" key) actor_id (fire_input row.id key) false db in
          run_due_schedules service split (λ zone. t) stamp (row ∷ []) db
          ≡ (db', record row { last_fire_key = some key } ∷ [], ok (started_ids x ++ [])))
created_fires service split is_zone id workflow cron timezone actor_id rows rows' row stamp w db a b
      c d e month day h known open_ fields on_day in_month there =
    let (row_is, valid) =
      created_row split is_zone id workflow cron timezone actor_id rows rows' row h in
    let (t, month_is, day_is, due) =
      schedule_fires split is_zone cron timezone a b c d e month day valid fields on_day in_month
        there in
    rw row_is (
      t,
      month_is,
      day_is,
      due_row service split t stamp (new_schedule id workflow cron timezone actor_id) w db refl refl
          due known open_,
    )
