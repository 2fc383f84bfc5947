-- ===== src/Runtime/Graph/Same.antt =====
-- The two engines on one workflow.
use agenstfer_agi.Base.{
  ℕ, suc, String, ◌≡◌, refl, sym, ap, ◌∙◌, Bool, true, false, Option, none, some, List, [], ◌∷◌,
  Bool-cases, inl, inr, Result, ok, err, ◌≤◌, ◌<◌, length, arith,
}
use agenstfer_agi.Base.Dict.{Dict, get}
use agenstfer_agi.Json.{Json, ℤ}
use agenstfer_agi.Workflow.Models.{WorkflowNode, WorkflowDefinition}
use agenstfer_agi.Workflow.Validator.Checks.{is_approval}
use agenstfer_agi.Workflow.Validator.Links.{node_table}
use agenstfer_agi.Approvals.State.{RunStatus}
use agenstfer_agi.Runtime.Conditions.{Failure}
use agenstfer_agi.Runtime.Store.{
  RunState, Run, Step, Approval, Store, step_at, step_or_new, passed, is_awaiting, load_state,
}
use agenstfer_agi.Runtime.Engine.{
  Executor, Turn, moved, waiting, Outcome, follow, enter, is_active, fired, new_approval,
  store_approval, await_approval, store_result, after_work, take_turn, visit, visit_named,
  run_nodes, end_loop, run_loop, fail_run, fail_step, set_status,
}
use agenstfer_agi.Runtime.Graph.{
  GraphState, GraphOutcome, Invoke, IsChain, then_invoke, has_stopped, node_failed, pause,
  record_work, work, enter_approval, act, run_node, node_executor, node_executors, build_graph,
  finish, execute_workflow, run_graph,
}

-- The loop's outcome and the graph's: both go on with one state and the same rows, both wait with
-- the same rows, or both have raised the same exception.
abbrev Agrees : Outcome Turn → GraphOutcome → Type 0
Agrees (d, ok (moved s)) (d', r) =
    (d ≡ d') × ((g : GraphState) × (r ≡ ok g) × (g.state_data ≡ s) × (g.status ≡ RunStatus.running))
Agrees (d, ok waiting) (d', r) =
    (d ≡ d')
    × (d.run.status ≡ RunStatus.awaiting_approval)
    × ((g : GraphState) × (r ≡ ok g) × (g.status ≡ RunStatus.awaiting_approval))
Agrees (d, err e) (d', r) = r ≡ err e

module _ (execute : Executor) (w : WorkflowDefinition) (py_str : Json → String)
    (py_int : Json → Option ℤ) where
  module _ (node : WorkflowNode) (step : Step) (g : GraphState)
      (going : g.status ≡ RunStatus.running) where
    Agrees-record_work :
        (db : Store) (done : List String × Dict Json) (x : Result Failure (List String))
        → Agrees
            (store_result execute w node step g.state_data db done x)
            (record_work node step g (record db { candidates = done.0 }) done.1 x)
    unfolding store_result record_work
    Agrees-record_work db done (err e) = refl
    Agrees-record_work db done (ok ids) = (refl, (_, refl, refl, going))

    Agrees-work :
        (db : Store) (x : Result Failure (List String × Dict Json))
        → Agrees
            (after_work execute w node step g.state_data db x)
            (work execute w py_str py_int node step g db x)
    unfolding after_work work node_failed
    Agrees-work db (err e) = refl
    Agrees-work db (ok done) = Agrees-record_work db done (fired w node done.1)

    Agrees-pause :
        (db : Store) (x : Result Failure Approval)
        → Agrees (store_approval py_str py_int step g.state_data db x) (pause node step g db x)
    unfolding store_approval pause node_failed
    Agrees-pause db (err e) = refl
    Agrees-pause db (ok a) = (refl, refl, (_, refl, refl))

    Agrees-enter_approval :
        (db : Store)
        → Agrees
            (await_approval py_str py_int node step g.state_data db)
            (enter_approval execute w py_str py_int node step g db)
    unfolding await_approval enter_approval
    Agrees-enter_approval db = elim (Bool-cases (is_awaiting step.status)) [
      | inl e ↦ rw e (refl, refl, (_, refl, refl))
      | inr e ↦ rw e (Agrees-pause db (new_approval py_str py_int node g.state_data db.candidates))
    ]

    Agrees-act :
        (active : Bool) (db : Store)
        → Agrees
            (take_turn execute w py_str py_int node active step g.state_data db)
            (act execute w py_str py_int node active step g db)
    unfolding take_turn act
    Agrees-act false db = (refl, (g, refl, refl, going))
    Agrees-act true db = elim (Bool-cases (is_approval node.kind)) [
      | inl e ↦ rw e (Agrees-enter_approval db)
      | inr e ↦ rw e (Agrees-work db (execute node db.candidates g.state_data.entries))
    ]

  Agrees-run_node :
      (n : ℕ) (o : Option WorkflowNode) (g : GraphState) (db : Store)
      → g.status ≡ RunStatus.running
      → Agrees
          (visit_named execute w py_str py_int n o g.state_data db)
          (run_node execute w py_str py_int n o g db)
  unfolding visit_named visit run_node
  Agrees-run_node n none g db going = refl
  Agrees-run_node n (some node) g db going =
      let prior = step_at n db.steps in
      let step = step_or_new n node.id prior in
      elim (Bool-cases (passed prior)) [
        | inl e ↦ rw e (refl, (g, refl, refl, going))
        | inr e ↦
            rw e (Agrees-act node step g going (is_active w node g.state_data) (enter node step db))
      ]

  node_executor-running :
      (n : ℕ) (id : String) (g : GraphState) (db : Store)
      → g.status ≡ RunStatus.running
      → node_executor execute w py_str py_int n id g db
        ≡ run_node execute w py_str py_int n (get id (node_table w.nodes)) g db
  unfolding node_executor has_stopped
  node_executor-running n id g db going = rw going refl

  length-node_executors :
      (n : ℕ) (ids : List String)
      → length (node_executors execute w py_str py_int n ids) ≡ length ids
  unfolding node_executors
  length-node_executors n [] = refl
  length-node_executors n (id ∷ ids) = ap suc (length-node_executors (suc n) ids)

  below :
      (n : ℕ) (ids : List String) (limit : ℕ)
      → suc (length ids) ≤ limit
      → length (node_executors execute w py_str py_int n ids) < limit
  below n ids limit few = rw (length-node_executors n ids) (omega arith)

  module _ (limit : ℕ) (ainvoke : Invoke) (chain : IsChain limit ainvoke) where
    -- Once the graph waits, no executor does anything.
    invoke-stopped :
        (n : ℕ) (ids : List String) (g : GraphState) (db : Store)
        → has_stopped g.status ≡ true
        → length ids ≤ limit
        → ainvoke (node_executors execute w py_str py_int n ids) g db ≡ (db, ok g)
    unfolding node_executors node_executor has_stopped
    invoke-stopped n [] g db h few = chain.none_left g db
    invoke-stopped n (id ∷ ids) g db h few =
        let f = node_executor execute w py_str py_int n id in
        let fs = node_executors execute w py_str py_int (suc n) ids in
        chain.one_more f fs g db (below (suc n) ids limit few)
        ∙ ap (λ x. then_invoke x (ainvoke fs)) {x = f g db} {y = (db, ok g)} (rw h refl)
        ∙ invoke-stopped (suc n) ids g db h (omega arith)

    Agrees-then :
        (x : Outcome Turn) (y : GraphOutcome) (next : RunState → Store → Outcome Turn)
        → (n : ℕ) (ids : List String)
        → ((g : GraphState) (d : Store)
            → g.status ≡ RunStatus.running
            → Agrees
                (next g.state_data d)
                (ainvoke (node_executors execute w py_str py_int n ids) g d))
        → Agrees x y
        → length ids ≤ limit
        → Agrees
            (follow x next)
            (then_invoke y (ainvoke (node_executors execute w py_str py_int n ids)))
    unfolding has_stopped
    Agrees-then (d, ok (moved s)) (d', r) next n ids rest (same, (g, r_is, data_is, going)) few =
        rw (r_is, same, ← data_is) (rest g d' going)
    Agrees-then (d, ok waiting) (d', r) next n ids rest (same, waits, (g, r_is, stopped)) few =
        rw (r_is, invoke-stopped n ids g d' (rw stopped refl) few) (same, waits, (g, refl, stopped))
    Agrees-then (d, err e) (d', r) next n ids rest r_is few = rw r_is refl

    Agrees-run_nodes :
        (n : ℕ) (ids : List String) (g : GraphState) (db : Store)
        → g.status ≡ RunStatus.running
        → length ids ≤ limit
        → Agrees
            (run_nodes execute w py_str py_int n ids g.state_data db)
            (ainvoke (node_executors execute w py_str py_int n ids) g db)
    unfolding run_nodes node_executors
    Agrees-run_nodes n [] g db going few = rw (chain.none_left g db) (refl, (g, refl, refl, going))
    Agrees-run_nodes n (id ∷ ids) g db going few =
        let named = get id (node_table w.nodes) in
        rw
          (
            chain.one_more (node_executor execute w py_str py_int n id)
                (node_executors execute w py_str py_int (suc n) ids) g db
                (below (suc n) ids limit few),
            node_executor-running n id g db going,
          )
          (Agrees-then (visit_named execute w py_str py_int n named g.state_data db)
            (run_node execute w py_str py_int n named g db)
            (run_nodes execute w py_str py_int (suc n) ids) (suc n) ids
            (λ g' d r. Agrees-run_nodes (suc n) ids g' d r (omega arith))
            (Agrees-run_node n named g db going) (omega arith))

-- The ends of the two engines: the same rows and the same run, or the same exception and a run that
-- is marked as failed in both.
abbrev pub SameEnd : Store × Result Failure Run → Store × Result Failure Run → Type 0
SameEnd (d, ok run) y = y ≡ (d, ok run)
SameEnd (d, err e) (d', r) =
    (r ≡ err e) × (d.run.status ≡ RunStatus.failed) × (d'.run.status ≡ RunStatus.failed)

fail_step-status : (o : Option Step) (db : Store) → (fail_step o db).run.status ≡ db.run.status
unfolding fail_step
fail_step-status none db = refl
fail_step-status (some s) db = refl

finish-SameEnd :
    (x : Outcome Turn) (y : GraphOutcome) → Agrees x y → SameEnd (end_loop x) (finish y)
unfolding end_loop finish fail_run
finish-SameEnd (d, ok (moved s)) (d', r) (same, (g, r_is, data_is, going)) =
    rw (r_is, going, ← same, ← data_is) refl
finish-SameEnd (d, ok waiting) (d', r) (same, waits, (g, r_is, stopped)) =
    rw (r_is, stopped, ← same)
      (ap (λ (st : RunStatus). (set_status st d, ok (record d.run { status = st }))) (sym waits))
finish-SameEnd (d, err e) (d', r) r_is = rw r_is (refl, fail_step-status _ _, refl)

-- On a run whose status is `running`, with data in scope that can be classified, and over an order
-- whose names the builder takes and that fits into the recursion limit, the engine on the graph ends
-- as the loop does over the same order: with the same rows and the same result, or with the same
-- exception and a run that is marked as failed.
pub engines_agree :
    (execute : Executor) (w : WorkflowDefinition) (py_str : Json → String)
    → (py_int : Json → Option ℤ) (takes : List String → Bool) (limit : ℕ)
    → (ainvoke : Invoke) (scope : String) (order : List String) (db : Store) → IsChain limit ainvoke
    → takes order ≡ true
    → length order ≤ limit
    → db.run.status ≡ RunStatus.running
    → SameEnd
        (run_loop execute py_str py_int w order db)
        (run_graph ainvoke (build_graph execute w py_str py_int takes order) (ok scope) db)
unfolding run_loop run_graph build_graph execute_workflow
engines_agree execute w py_str py_int takes limit ainvoke scope order db chain taken few going =
    let g : GraphState = record {
      status = db.run.status;
      state_data = load_state db.run;
      step_history = [];
    } in
    rw taken (
      finish-SameEnd (run_nodes execute w py_str py_int 1 order (load_state db.run) db)
        (ainvoke (node_executors execute w py_str py_int 1 order) g db)
        (Agrees-run_nodes execute w py_str py_int limit ainvoke chain 1 order g db going few))
