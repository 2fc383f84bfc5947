-- ===== src/Runtime/Approved/Waits.antt =====
-- The rows of a run that awaits approval.
use agenstfer_agi.Base.{
  ℕ, String, ◌≡◌, ◌≢◌, refl, sym, ap, ◌∙◌, ◌⊎◌, Bool, true, false, Option, none, some, List,
  Bool-cases, inl, inr, Result, ok, err,
}
use agenstfer_agi.Base.Dict.{Dict}
use agenstfer_agi.Json.{Json, ℤ}
use agenstfer_agi.Workflow.Models.{WorkflowNode, WorkflowDefinition}
use agenstfer_agi.Workflow.Validator.Checks.{is_approval}
use agenstfer_agi.Runtime.Conditions.{Failure}
use agenstfer_agi.Runtime.Store.{
  RunState, Step, Approval, Store, step_at, step_or_new, passed, is_awaiting, load_state,
}
use agenstfer_agi.Runtime.Engine.{
  Executor, Turn, moved, waiting, Outcome, follow, enter, is_active, store_approval, await_approval,
  store_result, after_work, fired, take_turn, visit, visit_named,
}

waiting_turn :
    (x : Outcome Turn) (next : RunState → Store → Outcome Turn) (db' : Store)
    → follow x next ≡ (db', ok waiting)
    → (x ≡ (db', ok waiting))
      ⊎ ((s : RunState) × (d : Store) × (x ≡ (d, ok (moved s))) × (next s d ≡ (db', ok waiting)))
waiting_turn (d, ok (moved s)) next db' h = inr (s, d, refl, h)
waiting_turn (d, ok waiting) next db' h = inl h
waiting_turn (d, err e) next db' h = cc

module _ (execute : Executor) (w : WorkflowDefinition) (py_str : Json → String)
    (py_int : Json → Option ℤ) where
  store_approval-keeps :
      (step : Step) (state : RunState) (db db' : Store) (x : Result Failure Approval)
      → store_approval py_str py_int step state db x ≡ (db', ok waiting)
      → load_state db'.run ≡ state
  unfolding store_approval load_state
  store_approval-keeps step state db db' (err e) h = cc
  store_approval-keeps step state db db' (ok a) h =
      sym (ap (λ (y : Outcome Turn). load_state y.0.run) h)

  await_approval-keeps :
      (node : WorkflowNode) (step : Step) (state : RunState) (db db' : Store)
      → load_state db.run ≡ state
      → await_approval py_str py_int node step state db ≡ (db', ok waiting)
      → load_state db'.run ≡ state
  unfolding await_approval load_state
  await_approval-keeps node step state db db' l h = elim (Bool-cases (is_awaiting step.status)) [
    | inl e ↦ sym (ap (λ (y : Outcome Turn). load_state y.0.run) (simp e at h)) ∙ l
    | inr e ↦ store_approval-keeps step state db db' _ (simp e at h)
  ]

  store_result-moves :
      (node : WorkflowNode) (step : Step) (state : RunState) (db db' : Store)
      → (done : List String × Dict Json) (x : Result Failure (List String))
      → store_result execute w node step state db done x ≢ (db', ok waiting)
  unfolding store_result
  store_result-moves node step state db db' done (err e) h = cc
  store_result-moves node step state db db' done (ok ids) h = cc

  after_work-moves :
      (node : WorkflowNode) (step : Step) (state : RunState) (db db' : Store)
      → (x : Result Failure (List String × Dict Json))
      → after_work execute w node step state db x ≢ (db', ok waiting)
  unfolding after_work
  after_work-moves node step state db db' (err e) h = cc
  after_work-moves node step state db db' (ok done) h =
      store_result-moves node step state db db' done (fired w node done.1) h

  take_turn-keeps :
      (node : WorkflowNode) (active : Bool) (step : Step) (state : RunState) (db db' : Store)
      → load_state db.run ≡ state
      → take_turn execute w py_str py_int node active step state db ≡ (db', ok waiting)
      → load_state db'.run ≡ state
  unfolding take_turn
  take_turn-keeps node false step state db db' l h = cc
  take_turn-keeps node true step state db db' l h = elim (Bool-cases (is_approval node.kind)) [
    | inl e ↦ await_approval-keeps node step state db db' l (simp e at h)
    | inr e ↦ absurd (after_work-moves node step state db db' _ (simp e at h))
  ]

  pub visit-keeps :
      (n : ℕ) (node : WorkflowNode) (state : RunState) (db db' : Store)
      → load_state db.run ≡ state
      → visit execute w py_str py_int n node state db ≡ (db', ok waiting)
      → load_state db'.run ≡ state
  unfolding visit load_state
  visit-keeps n node state db db' l h =
      let prior = step_at n db.steps in
      elim (Bool-cases (passed prior)) [
        | inl e ↦ absurd (let h' = simp e at h in cc)
        | inr e ↦
            let step = step_or_new n node.id prior in
            take_turn-keeps node (is_active w node state) step state (enter node step db) db' l
              (simp e at h)
      ]

  pub waiting_round :
      (n : ℕ) (o : Option WorkflowNode) (next : RunState → Store → Outcome Turn) (state : RunState)
      → (db db' : Store)
      → follow (visit_named execute w py_str py_int n o state db) next ≡ (db', ok waiting)
      → (node : WorkflowNode) × (o ≡ some node)
        × ((visit execute w py_str py_int n node state db ≡ (db', ok waiting))
            ⊎ ((s : RunState) × (d : Store) × (visit execute w py_str py_int n node state db
                  ≡ (d, ok (moved s)))
                × (next s d ≡ (db', ok waiting))))
  unfolding visit_named
  waiting_round n none next state db db' h = cc
  waiting_round n (some node) next state db db' h =
      (node, refl, waiting_turn (visit execute w py_str py_int n node state db) next db' h)
