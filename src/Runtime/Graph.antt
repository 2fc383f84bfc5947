-- ===== src/Runtime/Graph.antt =====
-- LangGraphWorkflowEngine of workflow/langgraph_runtime.py, which runs the built-in workflow. The
-- compiled graph is a chain of node executors; its invocation by the langgraph package is a
-- parameter, and so are the names that its builder takes and the classification of the data in
-- scope.
pub mod Same
use agenstfer_agi.Base.{
  ℕ, suc, String, Bool, true, false, ◌&&◌, ◌||◌, not, Option, none, some, List, [], ◌∷◌, ◌++◌, ◌==◌,
  if◌then◌else◌, Result, ok, err, ◌≡◌, ◌<◌, length,
}
use agenstfer_agi.Base.Dict.{Dict, get}
use agenstfer_agi.Base.Sets.{add_new}
use agenstfer_agi.Base.Sort.{sorted}
use agenstfer_agi.Json.{Json, ℤ}
use agenstfer_agi.Workflow.Models.{WorkflowNode, WorkflowDefinition}
use agenstfer_agi.Workflow.Validator.Checks.{is_approval}
use agenstfer_agi.Workflow.Validator.Links.{node_table}
use agenstfer_agi.Approvals.State.{RunStatus, StepStatus}
use agenstfer_agi.Runtime.Conditions.{Failure, key_error, value_error}
use agenstfer_agi.Runtime.Store.{
  RunState, Run, Step, Approval, Store, step_at, put_step, step_or_new, passed, is_awaiting,
  load_state, changed,
}
use agenstfer_agi.Runtime.Engine.{
  Executor, is_active, fired, new_approval, approval_output, set_step, set_status, set_output,
  enter, complete_run,
}

-- The channels of the graph that the executors read.
pub record GraphState : Type 0 where
  pub status : RunStatus
  pub state_data : RunState
  pub step_history : List String

abbrev pub GraphOutcome : Type 0
GraphOutcome = Store × Result Failure GraphState

abbrev pub NodeExecutor : Type 0
NodeExecutor = GraphState → Store → GraphOutcome

-- `ainvoke` of the compiled chain.
abbrev pub Invoke : Type 0
Invoke = List NodeExecutor → NodeExecutor

-- An invocation of a chain runs the executors in their order, each on the state that the one before
-- returned; an exception ends it.
abbrev pub then_invoke : GraphOutcome → NodeExecutor → GraphOutcome
then_invoke (db, ok g) next = next g db
then_invoke (db, err e) next = (db, err e)

-- `limit` is the number of executors that fit into the recursion limit of the package. The source
-- passes none, so that the package's default, 25 supersteps, is in force; beyond it `ainvoke`
-- raises.
pub record IsChain (limit : ℕ) (ainvoke : Invoke) : Type 0 where
  pub none_left : (g : GraphState) (db : Store) → ainvoke [] g db ≡ (db, ok g)
  pub one_more :
      (f : NodeExecutor) (fs : List NodeExecutor) (g : GraphState) (db : Store)
      → length fs < limit
      → ainvoke (f ∷ fs) g db ≡ then_invoke (f g db) (ainvoke fs)

-- `state.get("status") in {"awaiting_approval", "failed"}`
unfoldable pub has_stopped : RunStatus → Bool
has_stopped RunStatus.awaiting_approval = true
has_stopped RunStatus.failed = true
has_stopped _ = false

-- The handler of an executor.
unfoldable pub node_failed : WorkflowNode → Step → Failure → Store → GraphOutcome
node_failed node step e db = (
  set_step (record step { status = StepStatus.failed })
      (record db {
        run = record db.run { status = RunStatus.failed; error = some (some node.id, e) };
      }),
  err e,
)

unfoldable pub pause :
    WorkflowNode → Step → GraphState → Store → Result Failure Approval → GraphOutcome
unfolding node_failed
pause node step g db (err e) = node_failed node step e db
pause node step g db (ok a) =
    let step' = record step { status = StepStatus.awaiting_approval; output = approval_output a } in
    (
      set_output g.state_data (
          set_status RunStatus.awaiting_approval
            (set_step step' (record db { approvals = a ∷ db.approvals }))),
      ok (record g { status = RunStatus.awaiting_approval }),
    )

-- What follows the `try`: an exception here is left to the engine.
unfoldable pub record_work :
    WorkflowNode
    → Step
    → GraphState
    → Store
    → Dict Json
    → Result Failure (List String)
    → GraphOutcome
unfolding add_new sorted changed
record_work node step g db entries (err e) = (db, err e)
record_work node step g db entries (ok ids) =
    let after : RunState = record {
      active_edges = sorted (add_new g.state_data.active_edges ids);
      entries = entries;
    } in
    let step' = record step {
      status = StepStatus.completed;
      output = changed g.state_data.entries entries;
    } in
    (
      set_output after (set_step step' db),
      ok (record g { state_data = after; step_history = g.step_history ++ node.id ∷ [] }),
    )

module _ (execute : Executor) (w : WorkflowDefinition) (py_str : Json → String)
    (py_int : Json → Option ℤ) where
  unfoldable pub work :
      WorkflowNode
      → Step
      → GraphState
      → Store
      → Result Failure (List String × Dict Json)
      → GraphOutcome
  unfolding node_failed record_work fired
  work node step g db (err e) = node_failed node step e db
  work node step g db (ok done) =
      record_work node step g (record db { candidates = done.0 }) done.1 (fired w node done.1)

  unfoldable pub enter_approval : WorkflowNode → Step → GraphState → Store → GraphOutcome
  unfolding pause new_approval is_awaiting
  enter_approval node step g db =
      if is_awaiting step.status
      then (
        set_status RunStatus.awaiting_approval db,
        ok (record g { status = RunStatus.awaiting_approval }),
      )
      else pause node step g db (new_approval py_str py_int node g.state_data db.candidates)

  unfoldable pub act : WorkflowNode → Bool → Step → GraphState → Store → GraphOutcome
  unfolding work enter_approval is_approval
  act node active step g db =
      if not active
      then (set_step (record step { status = StepStatus.skipped }) db, ok g)
      else if is_approval node.kind
      then enter_approval node step g db
      else work node step g db (execute node db.candidates g.state_data.entries)

  -- The names of the order are all known; for another one the source fails in its handler, which
  -- reads the node.
  unfoldable pub run_node : ℕ → Option WorkflowNode → NodeExecutor
  unfolding act is_active step_at passed step_or_new put_step
  run_node sequence none g db = (db, err key_error)
  run_node sequence (some node) g db =
      let prior = step_at sequence db.steps in
      let step = step_or_new sequence node.id prior in
      if passed prior
      then (db, ok g)
      else act node (is_active w node g.state_data) step g (enter node step db)

  -- `_make_node_executor`
  unfoldable pub node_executor : ℕ → String → NodeExecutor
  unfolding run_node has_stopped get node_table
  node_executor sequence node_id g db =
      if has_stopped g.status
      then (db, ok g)
      else run_node sequence (get node_id (node_table w.nodes)) g db

  -- The executors in the topological order.
  unfoldable pub node_executors : ℕ → List String → List NodeExecutor
  unfolding node_executor
  node_executors sequence [] = []
  node_executors sequence (id ∷ ids) = node_executor sequence id ∷ node_executors (suc sequence) ids

  -- `_build_graph`. The builder raises a ValueError for names that it does not take, as for that of
  -- a channel of the state (`status`, `current_node`).
  unfoldable pub build_graph :
      (List String → Bool) → List String → Result Failure (List NodeExecutor)
  unfolding node_executors
  build_graph takes order = if takes order then ok (node_executors 1 order) else err value_error

abbrev pub mark_failed : Failure → Store → Store
mark_failed e db = record db {
  run = record db.run { status = RunStatus.failed; error = some (db.run.current_step, e) };
}

unfoldable pub is_waiting_status : RunStatus → Bool
is_waiting_status RunStatus.awaiting_approval = true
is_waiting_status _ = false

unfoldable pub is_failed_status : RunStatus → Bool
is_failed_status RunStatus.failed = true
is_failed_status _ = false

-- What execute_workflow does with the final state, or with an exception.
unfoldable pub finish : GraphOutcome → Store × Result Failure Run
unfolding is_waiting_status is_failed_status
finish (db, err e) = (mark_failed e db, err e)
finish (db, ok g) =
    if is_waiting_status g.status
    then (let db' = set_status RunStatus.awaiting_approval db in (db', ok db'.run))
    else if is_failed_status g.status
    then (db, ok db.run)
    else let db' = complete_run g.state_data db in (db', ok db'.run)

unfoldable pub execute_workflow :
    Invoke → List NodeExecutor → Result Failure String → Store → Store × Result Failure Run
unfolding finish load_state
execute_workflow ainvoke graph (err e) db = (mark_failed e db, err e)
execute_workflow ainvoke graph (ok scope) db = finish (
    ainvoke graph
      (record { status = db.run.status; state_data = load_state db.run; step_history = [] }) db)

-- `LangGraphWorkflowEngine(...)` and its execute_workflow; an exception of the constructor leaves the
-- rows as they are.
unfoldable pub run_graph :
    Invoke
    → Result Failure (List NodeExecutor)
    → Result Failure String
    → Store
    → Store × Result Failure Run
unfolding execute_workflow
run_graph ainvoke (err e) scope db = (db, err e)
run_graph ainvoke (ok graph) scope db = execute_workflow ainvoke graph scope db
