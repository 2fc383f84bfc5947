-- ===== src/Runtime/Engine.antt =====
-- The loop of resume_persisted_workflow (workflow/persistent_runtime.py), for the workflows that it
-- runs itself. The set of active edges is the sorted list that is stored. What a node's work does
-- to the state and to the candidates, `int` and `str` of JSON values are parameters.
use agenstfer_agi.Base.{
  ℕ, suc, String, Bool, false, ◌&&◌, ◌||◌, not, Option, none, some, List, [], ◌∷◌, ◌==◌,
  if◌then◌else◌, Result, ok, err, ◌>>=◌, map, select, any,
}
use agenstfer_agi.Base.Dict.{Dict, get}
use agenstfer_agi.Base.Sets.{elem, add_new}
use agenstfer_agi.Base.Sort.{sorted}
use agenstfer_agi.Json.{Json, ℤ, pos, num, str, obj}
use agenstfer_agi.Workflow.Models.{WorkflowNode, WorkflowEdge, WorkflowDefinition}
use agenstfer_agi.Workflow.Validator.Checks.{is_trigger, is_condition, is_approval}
use agenstfer_agi.Workflow.Validator.Links.{node_table}
use agenstfer_agi.Approvals.State.{RunStatus, StepStatus}
use agenstfer_agi.Runtime.Values.{lookup, truth}
use agenstfer_agi.Runtime.Conditions.{Failure, value_error, key_error, type_error, text_or}
use agenstfer_agi.Runtime.Store.{
  RunState, Run, Step, Approval, Store, step_at, put_step, step_or_new, passed, is_awaiting,
  is_running, load_state, changed,
}

-- A node's work, on the ids of the candidates and the entries of the state.
abbrev pub Executor : Type 0
Executor = WorkflowNode → List String → Dict Json → Result Failure (List String × Dict Json)

-- The loop goes on with a state, or returns the run that awaits approval.
pub data Turn : Type 0 where
  moved : RunState → Turn
  waiting : Turn

abbrev pub Outcome : Type 0 → Type 0
Outcome A = Store × Result Failure A

unfoldable pub incoming : WorkflowDefinition → String → List WorkflowEdge
incoming w id = select (λ (e : WorkflowEdge). e.target == id) w.edges

unfoldable pub outgoing : WorkflowDefinition → String → List WorkflowEdge
outgoing w id = select (λ (e : WorkflowEdge). e.source == id) w.edges

unfoldable pub is_active : WorkflowDefinition → WorkflowNode → RunState → Bool
unfolding incoming elem is_trigger
is_active w node state =
    is_trigger node.kind
    || any (λ (e : WorkflowEdge). elem e.id state.active_edges) (incoming w node.id)

unfoldable pub recorded_branch : Option Json → String → Result Failure Bool
unfolding lookup truth
recorded_branch none id = err key_error
recorded_branch (some (obj fields)) id = elim (lookup id fields) [
  | none ↦ err key_error
  | some v ↦ ok (truth v)
]
recorded_branch (some _) id = err type_error

abbrev pub branch_is : Bool → Option String → Bool
branch_is taken none = false
branch_is taken (some label) = label == (if taken then "true" else "false")

abbrev pub edge_ids : List WorkflowEdge → List String
edge_ids es = map (λ (e : WorkflowEdge). e.id) es

-- The edges that a node activates when it is done.
unfoldable pub fired : WorkflowDefinition → WorkflowNode → Dict Json → Result Failure (List String)
unfolding outgoing recorded_branch get is_condition
fired w node entries =
    if is_condition node.kind
    then (recorded_branch (get "conditions" entries) node.id >>= λ taken.
        ok
          (edge_ids (select (λ (e : WorkflowEdge). branch_is taken e.branch) (outgoing w node.id))))
    else ok (edge_ids (outgoing w node.id))

abbrev pub set_step : Step → Store → Store
set_step s db = record db { steps = put_step s db.steps }

abbrev pub set_status : RunStatus → Store → Store
set_status status db = record db { run = record db.run { status = status } }

abbrev pub set_output : RunState → Store → Store
set_output state db = record db { run = record db.run { output_json = some state } }

-- `candidate_id` is there, not empty, and a row of the table.
unfoldable pub candidate_in : Option Json → List String → Result Failure String
unfolding elem
candidate_in (some (str c)) candidates =
    if not (c == "") && elem c candidates then ok c else err value_error
candidate_in _ candidates = err value_error

abbrev pub or_default : Json → Option Json → Json
or_default default none = default
or_default default (some v) = v

unfoldable pub int_value : (Json → Option ℤ) → Json → Result Failure ℤ
int_value py_int j = elim (py_int j) [ none ↦ err value_error | some n ↦ ok n ]

abbrev pub approval_output : Approval → Dict Json
approval_output a = ("candidate_id", str a.candidate_id) ∷ []

module _ (py_str : Json → String) (py_int : Json → Option ℤ) where
  unfoldable pub new_approval : WorkflowNode → RunState → List String → Result Failure Approval
  unfolding candidate_in int_value text_or get
  new_approval node state candidates =
      candidate_in (get "candidate_id" state.entries) candidates >>= λ candidate_id.
      int_value py_int (or_default (num (pos 7) 0) (get "timeout_days" node.config)) >>= λ days.
      ok (record {
        requested_role = text_or py_str (or_default (str "approver") (get "role" node.config));
        candidate_id = candidate_id;
        timeout_days = days;
      })

  unfoldable pub store_approval : Step → RunState → Store → Result Failure Approval → Outcome Turn
  store_approval step state db (err e) = (db, err e)
  store_approval step state db (ok a) =
      let step' = record step {
        status = StepStatus.awaiting_approval;
        output = approval_output a;
      } in
      (
        set_output state (
            set_status RunStatus.awaiting_approval
              (set_step step' (record db { approvals = a ∷ db.approvals }))),
        ok waiting,
      )

  unfoldable pub await_approval : WorkflowNode → Step → RunState → Store → Outcome Turn
  unfolding is_awaiting new_approval store_approval
  await_approval node step state db =
      if is_awaiting step.status
      then (set_status RunStatus.awaiting_approval db, ok waiting)
      else store_approval step state db (new_approval node state db.candidates)

abbrev pub enter : WorkflowNode → Step → Store → Store
enter node step db = record db {
  run = record db.run { current_step = some node.id };
  steps = put_step step db.steps;
}

-- The loop's next rounds, unless it has returned or raised.
abbrev pub follow : Outcome Turn → (RunState → Store → Outcome Turn) → Outcome Turn
follow (db, ok (moved state)) next = next state db
follow (db, ok waiting) next = (db, ok waiting)
follow (db, err e) next = (db, err e)

module _ (execute : Executor) (w : WorkflowDefinition) where
  unfoldable pub store_result :
      WorkflowNode
      → Step
      → RunState
      → Store
      → List String × Dict Json
      → Result Failure (List String)
      → Outcome Turn
  unfolding add_new sorted changed
  store_result node step state db done (err e) = (record db { candidates = done.0 }, err e)
  store_result node step state db done (ok ids) =
      let state' : RunState = record {
        active_edges = sorted (add_new state.active_edges ids);
        entries = done.1;
      } in
      let step' = record step {
        status = StepStatus.completed;
        output = changed state.entries done.1;
      } in
      (set_output state' (set_step step' (record db { candidates = done.0 })), ok (moved state'))

  unfoldable pub after_work :
      WorkflowNode
      → Step
      → RunState
      → Store
      → Result Failure (List String × Dict Json)
      → Outcome Turn
  unfolding store_result fired
  after_work node step state db (err e) = (db, err e)
  after_work node step state db (ok done) =
      store_result node step state db done (fired w node done.1)

  module _ (py_str : Json → String) (py_int : Json → Option ℤ) where
    -- A node whose step has been entered.
    unfoldable pub take_turn : WorkflowNode → Bool → Step → RunState → Store → Outcome Turn
    unfolding after_work await_approval is_approval
    take_turn node active step state db =
        if not active
        then (set_step (record step { status = StepStatus.skipped }) db, ok (moved state))
        else if is_approval node.kind
        then await_approval py_str py_int node step state db
        else after_work node step state db (execute node db.candidates state.entries)

    unfoldable pub visit : ℕ → WorkflowNode → RunState → Store → Outcome Turn
    unfolding take_turn step_at passed step_or_new is_active put_step
    visit sequence node state db =
        let prior = step_at sequence db.steps in
        let step = step_or_new sequence node.id prior in
        if passed prior
        then (db, ok (moved state))
        else take_turn node (is_active w node state) step state (enter node step db)

    unfoldable pub visit_named : ℕ → Option WorkflowNode → RunState → Store → Outcome Turn
    unfolding visit
    visit_named sequence none state db = (db, err key_error)
    visit_named sequence (some node) state db = visit sequence node state db

    -- `for sequence, node_id in enumerate(order, start=1)`, from a sequence number on.
    unfoldable pub run_nodes : ℕ → List String → RunState → Store → Outcome Turn
    unfolding visit_named get node_table
    run_nodes sequence [] state db = (db, ok (moved state))
    run_nodes sequence (id ∷ ids) state db =
        follow (visit_named sequence (get id (node_table w.nodes)) state db)
          (run_nodes (suc sequence) ids)

unfoldable pub running_step : List Step → Option Step
unfolding is_running
running_step [] = none
running_step (s ∷ ss) = if is_running s.status then some s else running_step ss

unfoldable pub fail_step : Option Step → Store → Store
fail_step none db = db
fail_step (some s) db = set_step (record s { status = StepStatus.failed }) db

unfoldable pub failed_node : Option Step → Run → Option String
failed_node none run = run.current_step
failed_node (some s) run = some s.step_id

-- The handler of an exception.
unfoldable pub fail_run : Failure → Store → Store
unfolding running_step fail_step failed_node
fail_run e db =
    let active = running_step db.steps in
    fail_step active (record db {
      run = record db.run {
        status = RunStatus.failed;
        error = some (failed_node active db.run, e);
      };
    })

abbrev pub complete_run : RunState → Store → Store
complete_run state db = record db {
  run = record db.run {
    status = RunStatus.completed;
    current_step = none;
    output_json = some state;
  };
}

-- What the loop ends in: the run is returned, or the exception raised again.
unfoldable pub end_loop : Outcome Turn → Outcome Run
unfolding fail_run
end_loop (db, ok (moved state)) = let db' = complete_run state db in (db', ok db'.run)
end_loop (db, ok waiting) = (db, ok db.run)
end_loop (db, err e) = let db' = fail_run e db in (db', err e)

module _ (execute : Executor) (py_str : Json → String) (py_int : Json → Option ℤ)
    (w : WorkflowDefinition) where
  unfoldable pub run_loop : List String → Store → Outcome Run
  unfolding run_nodes load_state end_loop
  run_loop order db = end_loop (run_nodes execute w py_str py_int 1 order (load_state db.run) db)
