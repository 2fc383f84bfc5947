-- ===== src/Runtime/Restart/Turns.antt =====
-- What one turn of the loop leaves behind.
use agenstfer_agi.Base.{
  ℕ, String, ◌≡◌, ◌≢◌, refl, ap, ◌∙◌, Bool, true, false, Option, some, List, [], ◌∷◌, nat_beq,
  if◌then◌else◌, arith, Bool-cases, inl, inr, Result, ok, err,
}
use agenstfer_agi.Base.Dict.{Dict}
use agenstfer_agi.Json.{Json, ℤ}
use agenstfer_agi.Workflow.Models.{WorkflowNode, WorkflowDefinition}
use agenstfer_agi.Workflow.Validator.Checks.{is_approval}
use agenstfer_agi.Approvals.State.{StepStatus}
use agenstfer_agi.Runtime.Conditions.{Failure}
use agenstfer_agi.Runtime.Store.{
  RunState, Step, Approval, Store, changed, is_awaiting, step_at, put_step, step_or_new, passed,
  load_state,
}
use agenstfer_agi.Runtime.Engine.{
  Executor, Turn, moved, waiting, Outcome, follow, enter, take_turn, visit, after_work,
  store_result, await_approval, store_approval, fired, new_approval, is_active,
}

pub follow-follow :
    (x : Outcome Turn) (f g : RunState → Store → Outcome Turn)
    → follow (follow x f) g ≡ follow x (λ s d. follow (f s d) g)
follow-follow (db, ok (moved s)) f g = refl
follow-follow (db, ok waiting) f g = refl
follow-follow (db, err e) f g = refl

pub first_turn :
    (x : Outcome Turn) (next : RunState → Store → Outcome Turn) (state' : RunState) (db' : Store)
    → follow x next ≡ (db', ok (moved state'))
    → (s : RunState) × (d : Store) × (x ≡ (d, ok (moved s))) × (next s d ≡ (db', ok (moved state')))
first_turn (d, ok (moved s)) next state' db' h = (s, d, refl, h)
first_turn (d, ok waiting) next state' db' h = cc
first_turn (d, err e) next state' db' h = cc

pub step_at-put_step :
    (n : ℕ) (s : Step) (ss : List Step)
    → step_at n (put_step s ss) ≡ (if nat_beq s.sequence n then some s else step_at n ss)
unfolding step_at put_step
step_at-put_step n s [] = refl
step_at-put_step n s (t ∷ ts) = ground (arith, step_at-put_step n s ts)

pub put_step_again : (s : Step) (ss : List Step) → put_step s (put_step s ss) ≡ put_step s ss
unfolding put_step
put_step_again s [] = let e : nat_beq s.sequence s.sequence ≡ true = ground arith in rw e refl
put_step_again s (t ∷ ts) = elim (Bool-cases (nat_beq t.sequence s.sequence)) [
  | inl e ↦ let f : nat_beq s.sequence s.sequence ≡ true = ground arith in rw (e, f) refl
  | inr e ↦ rw (e, e, put_step_again s ts) refl
]

-- What a turn that goes on leaves behind: the state that is stored, and a step that is over.
pub record Settled (sequence : ℕ) (db db' : Store) (state : RunState) : Type 0 where
  pub loaded : load_state db'.run ≡ state
  pub over : passed (step_at sequence db'.steps) ≡ true
  pub others : (n : ℕ) → nat_beq sequence n ≡ false → step_at n db'.steps ≡ step_at n db.steps

abbrev pub state_of : RunState → Result Failure Turn → RunState
state_of default (ok (moved state)) = state
state_of default _ = default

step_or_new-sequence :
    (n : ℕ) (id : String) (ss : List Step) → (step_or_new n id (step_at n ss)).sequence ≡ n
unfolding step_or_new step_at
step_or_new-sequence n id [] = refl
step_or_new-sequence n id (s ∷ ss) = elim (Bool-cases (nat_beq s.sequence n)) [
  | inl e ↦ rw e (ground arith)
  | inr e ↦ rw e (step_or_new-sequence n id ss)
]

module _ (execute : Executor) (w : WorkflowDefinition) (py_str : Json → String)
    (py_int : Json → Option ℤ) where
  store_result-Settled :
      (node : WorkflowNode) (step : Step) (state state' : RunState) (db db' : Store)
      → (done : List String × Dict Json) (x : Result Failure (List String))
      → store_result execute w node step state db done x ≡ (db', ok (moved state'))
      → Settled step.sequence db db' state'
  unfolding store_result passed load_state
  store_result-Settled node step state state' db db' done (err e) h = cc
  store_result-Settled node step state state' db db' done (ok ids) h =
      let step' = record step {
        status = StepStatus.completed;
        output = changed state.entries done.1;
      } in
      let steps_are : put_step step' db.steps ≡ db'.steps =
        ap (λ (x : Outcome Turn). x.0.steps) h in
      record {
        loaded = cc;
        over = rw (← steps_are, step_at-put_step step.sequence step' db.steps) (ground arith);
        others = λ n e. rw (← steps_are, step_at-put_step n step' db.steps, e) refl;
      }

  store_approval-waits :
      (step : Step) (state state' : RunState) (db db' : Store) (x : Result Failure Approval)
      → store_approval py_str py_int step state db x ≢ (db', ok (moved state'))
  unfolding store_approval
  store_approval-waits step state state' db db' (err e) h = cc
  store_approval-waits step state state' db db' (ok a) h = cc

  pub await_approval-waits :
      (node : WorkflowNode) (step : Step) (state state' : RunState) (db db' : Store)
      → await_approval py_str py_int node step state db ≢ (db', ok (moved state'))
  unfolding await_approval
  await_approval-waits node step state state' db db' h =
      elim (Bool-cases (is_awaiting step.status)) [
        | inl e ↦ cc
        | inr e ↦
            store_approval-waits step state state' db db'
              (new_approval py_str py_int node state db.candidates) (rw e at h)
      ]

  after_work-Settled :
      (node : WorkflowNode) (step : Step) (state state' : RunState) (db db' : Store)
      → (x : Result Failure (List String × Dict Json))
      → after_work execute w node step state db x ≡ (db', ok (moved state'))
      → Settled step.sequence db db' state'
  unfolding after_work
  after_work-Settled node step state state' db db' (err e) h = cc
  after_work-Settled node step state state' db db' (ok done) h =
      store_result-Settled node step state state' db db' done (fired w node done.1) h

  take_turn-Settled :
      (node : WorkflowNode) (active : Bool) (step : Step) (state state' : RunState) (db db' : Store)
      → load_state db.run ≡ state
      → take_turn execute w py_str py_int node active step state db ≡ (db', ok (moved state'))
      → Settled step.sequence db db' state'
  unfolding take_turn passed
  take_turn-Settled node false step state state' db db' l h =
      let step' = record step { status = StepStatus.skipped } in
      let run_is : db.run ≡ db'.run = ap (λ (x : Outcome Turn). x.0.run) h in
      let steps_are : put_step step' db.steps ≡ db'.steps =
        ap (λ (x : Outcome Turn). x.0.steps) h in
      let same : state ≡ state' = cc in
      record {
        loaded = rw (← run_is) (l ∙ same);
        over = rw (← steps_are, step_at-put_step step.sequence step' db.steps) (ground arith);
        others = λ n e. rw (← steps_are, step_at-put_step n step' db.steps, e) refl;
      }
  take_turn-Settled node true step state state' db db' l h =
      elim (Bool-cases (is_approval node.kind)) [
        | inl e ↦ absurd (await_approval-waits node step state state' db db' (rw e at h))
        | inr e ↦
            after_work-Settled node step state state' db db'
              (execute node db.candidates state.entries) (rw e at h)
      ]

  pub visit-Settled :
      (n : ℕ) (node : WorkflowNode) (state state' : RunState) (db db' : Store)
      → load_state db.run ≡ state
      → visit execute w py_str py_int n node state db ≡ (db', ok (moved state'))
      → Settled n db db' state'
  unfolding visit load_state
  visit-Settled n node state state' db db' l h =
      let prior = step_at n db.steps in
      let step = step_or_new n node.id prior in
      let same = step_or_new-sequence n node.id db.steps in
      elim (Bool-cases (passed prior)) [
        | inl e ↦
            let kept : ◌≡◌ {A = Outcome Turn} (db, ok (moved state)) (db', ok (moved state')) =
              rw e at h in
            let db_is : db ≡ db' = ap (λ (x : Outcome Turn). x.0) kept in
            let state_is : state ≡ state' = ap (λ (x : Outcome Turn). state_of state x.1) kept in
            record {
              loaded = rw (← db_is) (l ∙ state_is);
              over = rw (← db_is) e;
              others = λ m d. rw (← db_is) refl;
            }
        | inr e ↦
            let t =
              take_turn-Settled node (is_active w node state) step state state' (enter node step db)
                db' l (rw e at h) in
            record {
              loaded = t.loaded;
              over = rw same at t.over;
              others = λ m d.
                  t.others m (rw same d) ∙ step_at-put_step m step db.steps ∙ rw (same, d) refl;
            }
      ]
