-- ===== src/Runtime/Restart.antt =====
-- A run that is taken up again from the rows that it has stored.
pub mod Turns
use agenstfer_agi.Base.{
  ℕ, suc, ◌+◌, ◌≤◌, ◌<◌, String, ◌≡◌, ◌≢◌, refl, sym, ap, fun_ext, ◌∙◌, Bool, true, false, Option,
  none, some, List, [], ◌∷◌, ◌++◌, nat_beq, if◌then◌else◌, arith, length, Bool-cases, inl, inr,
  Result, ok, err,
}
use agenstfer_agi.Base.Dict.{Dict, get}
use agenstfer_agi.Json.{Json, ℤ}
use agenstfer_agi.Workflow.Models.{WorkflowNode, WorkflowDefinition}
use agenstfer_agi.Workflow.Validator.Checks.{is_approval}
use agenstfer_agi.Workflow.Validator.Links.{node_table}
use agenstfer_agi.Approvals.State.{StepStatus}
use agenstfer_agi.Runtime.Conditions.{Failure}
use agenstfer_agi.Runtime.Store.{
  RunState, Step, Approval, Store, changed, is_awaiting, new_step, step_at, put_step, step_or_new,
  passed, load_state,
}
use agenstfer_agi.Runtime.Engine.{
  Executor, Turn, moved, waiting, Outcome, follow, enter, set_step, take_turn, visit, visit_named,
  run_nodes, after_work, store_result, await_approval, store_approval, fired, new_approval,
  is_active, end_loop, run_loop,
}
use agenstfer_agi.Runtime.Restart.Turns.{
  follow-follow, first_turn, step_at-put_step, put_step_again, Settled, state_of, visit-Settled,
}

module _ (execute : Executor) (w : WorkflowDefinition) (py_str : Json → String)
    (py_int : Json → Option ℤ) where
  -- The nodes of `ids` are known, and their steps, from sequence number `n` on, are over.
  abbrev Over : ℕ → List String → Store → Type 0
  Over n [] db = Unit
  Over n (id ∷ ids) db =
      ((node : WorkflowNode) × (get id (node_table w.nodes) ≡ some node))
      × (passed (step_at n db.steps) ≡ true)
      × Over (suc n) ids db

  visit-passed :
      (n : ℕ) (node : WorkflowNode) (state : RunState) (db : Store)
      → passed (step_at n db.steps) ≡ true
      → visit execute w py_str py_int n node state db ≡ (db, ok (moved state))
  unfolding visit
  visit-passed n node state db p = rw p refl

  run_nodes-Over :
      (n : ℕ) (ids : List String) (state : RunState) (db : Store)
      → Over n ids db
      → run_nodes execute w py_str py_int n ids state db ≡ (db, ok (moved state))
  unfolding run_nodes visit_named
  run_nodes-Over n [] state db o = refl
  run_nodes-Over n (id ∷ ids) state db ((node, known), p, o) =
      rw (known, visit-passed n node state db p) (run_nodes-Over (suc n) ids state db o)

  run_nodes-append :
      (n : ℕ) (xs ys : List String) (state : RunState) (db : Store)
      → run_nodes execute w py_str py_int n (xs ++ ys) state db
        ≡ follow
            (run_nodes execute w py_str py_int n xs state db)
            (run_nodes execute w py_str py_int (n + length xs) ys)
  unfolding run_nodes
  run_nodes-append n [] ys state db = let e : n + 0 ≡ n = omega arith in rw e refl
  run_nodes-append n (x ∷ xs) ys state db =
      let e : n + suc (length xs) ≡ suc n + length xs = omega arith in
      let first = visit_named execute w py_str py_int n (get x (node_table w.nodes)) state db in
      rw e (
        ap (follow first) (fun_ext λ s. fun_ext λ d. run_nodes-append (suc n) xs ys s d)
        ∙ sym (
            follow-follow first (run_nodes execute w py_str py_int (suc n) xs)
              (run_nodes execute w py_str py_int (suc n + length xs) ys)))

  -- The round of a node, when the rounds from it on go on.
  pub first_round :
      (n : ℕ) (o : Option WorkflowNode) (next : RunState → Store → Outcome Turn)
      → (state state' : RunState) (db db' : Store)
      → follow (visit_named execute w py_str py_int n o state db) next ≡ (db', ok (moved state'))
      → (node : WorkflowNode) × (o ≡ some node)
        × (s : RunState) × (d : Store) × (visit execute w py_str py_int n node state db
            ≡ (d, ok (moved s)))
        × (next s d ≡ (db', ok (moved state')))
  unfolding visit_named
  first_round n none next state state' db db' h = cc
  first_round n (some node) next state state' db db' h =
      let (s, d, first, rest) =
        first_turn (visit execute w py_str py_int n node state db) next state' db' h in
      (node, refl, s, d, first, rest)

  run_nodes-Settled :
      (n : ℕ) (ids : List String) (state state' : RunState) (db db' : Store)
      → load_state db.run ≡ state
      → run_nodes execute w py_str py_int n ids state db ≡ (db', ok (moved state'))
      → (load_state db'.run ≡ state')
        × Over n ids db'
        × ((m : ℕ) → m < n → step_at m db'.steps ≡ step_at m db.steps)
  unfolding run_nodes
  run_nodes-Settled n [] state state' db db' l h =
      let db_is : db ≡ db' = ap (λ (x : Outcome Turn). x.0) h in
      let state_is : state ≡ state' = ap (λ (x : Outcome Turn). state_of state x.1) h in
      (rw (← db_is) (l ∙ state_is), tt, λ m lt. rw (← db_is) refl)
  run_nodes-Settled n (id ∷ ids) state state' db db' l h =
      let (node, known, s, d, first, rest) =
        first_round n (get id (node_table w.nodes)) (run_nodes execute w py_str py_int (suc n) ids)
          state state' db db' h in
      let t = visit-Settled execute w py_str py_int n node state s db d l first in
      let (loaded, over, kept) = run_nodes-Settled (suc n) ids s state' d db' t.loaded rest in
      (
        loaded,
        ((node, known), rw (kept n (omega arith)) t.over, over),
        λ m lt. kept m (omega arith) ∙ t.others m (ground arith),
      )

  Over-put_step :
      (n : ℕ) (ids : List String) (s : Step) (db : Store)
      → n + length ids ≤ s.sequence
      → Over n ids db
      → Over n ids (set_step s db)
  Over-put_step n [] s db far o = tt
  Over-put_step n (id ∷ ids) s db far (known, p, o) = (
    known,
    rw (step_at-put_step n s db.steps) (ground arith),
    Over-put_step (suc n) ids s db (omega arith) o,
  )

  -- A node whose step was added before the process stopped is visited as if it were new.
  visit-entered :
      (n : ℕ) (node : WorkflowNode) (state : RunState) (db : Store)
      → step_at n db.steps ≡ none
      → visit execute w py_str py_int n node state (set_step (new_step n node.id) db)
        ≡ visit execute w py_str py_int n node state db
  unfolding visit passed step_or_new
  visit-entered n node state db fresh =
      let s = new_step n node.id in
      let same : nat_beq n n ≡ true = ground arith in
      rw (step_at-put_step n s db.steps, same, fresh, put_step_again s db.steps) refl

  run_nodes-entered :
      (n : ℕ) (ids : List String) (node : WorkflowNode) (state : RunState) (db : Store)
      → get node.id (node_table w.nodes) ≡ some node
      → step_at n db.steps ≡ none
      → run_nodes execute w py_str py_int n (node.id ∷ ids) state (set_step (new_step n node.id) db)
        ≡ run_nodes execute w py_str py_int n (node.id ∷ ids) state db
  unfolding run_nodes visit_named
  run_nodes-entered n ids node state db known fresh =
      rw (known, visit-entered n node state db fresh) refl

  -- Two ways to come to the nodes `ys`: over the rows of `db''`, or from the start.
  rerun :
      (xs ys : List String) (state : RunState) (db db' db'' : Store)
      → run_nodes execute w py_str py_int 1 xs (load_state db.run) db ≡ (db', ok (moved state))
      → load_state db''.run ≡ state
      → Over 1 xs db''
      → run_nodes execute w py_str py_int (1 + length xs) ys state db''
        ≡ run_nodes execute w py_str py_int (1 + length xs) ys state db'
      → run_loop execute py_str py_int w (xs ++ ys) db''
        ≡ run_loop execute py_str py_int w (xs ++ ys) db
  unfolding run_loop
  rerun xs ys state db db' db'' h loaded over rest =
      let tail = run_nodes execute w py_str py_int (1 + length xs) ys in
      let again : run_nodes execute w py_str py_int 1 xs (load_state db''.run) db''
          ≡ (db'', ok (moved state)) =
        rw loaded (run_nodes-Over 1 xs state db'' over) in
      ap end_loop (
        run_nodes-append 1 xs ys (load_state db''.run) db''
        ∙ ap (λ x. follow x tail) {y = (db'', ok (moved state))} again
        ∙ rest
        ∙ sym (ap (λ x. follow x tail) {y = (db', ok (moved state))} h)
        ∙ sym (run_nodes-append 1 xs ys (load_state db.run) db))

  -- A run is stopped after some of its nodes, and taken up again from the rows that are stored:
  -- it ends as if it had not been stopped, with the same rows and the same result.
  pub restart :
      (xs ys : List String) (state : RunState) (db db' : Store)
      → run_nodes execute w py_str py_int 1 xs (load_state db.run) db ≡ (db', ok (moved state))
      → run_loop execute py_str py_int w (xs ++ ys) db'
        ≡ run_loop execute py_str py_int w (xs ++ ys) db
  unfolding run_loop
  restart xs ys state db db' h =
      let (loaded, over, kept) = run_nodes-Settled 1 xs (load_state db.run) state db db' refl h in
      rerun xs ys state db db' db' h loaded over refl

  -- The same, if the step of the next node had been added when the run was stopped.
  pub restart_entered :
      (xs ys : List String) (node : WorkflowNode) (state : RunState) (db db' : Store)
      → run_nodes execute w py_str py_int 1 xs (load_state db.run) db ≡ (db', ok (moved state))
      → get node.id (node_table w.nodes) ≡ some node
      → step_at (1 + length xs) db'.steps ≡ none
      → run_loop execute py_str py_int w
          (xs ++ node.id ∷ ys)
          (set_step (new_step (1 + length xs) node.id) db')
        ≡ run_loop execute py_str py_int w (xs ++ node.id ∷ ys) db
  unfolding run_loop
  restart_entered xs ys node state db db' h known fresh =
      let (loaded, over, kept) = run_nodes-Settled 1 xs (load_state db.run) state db db' refl h in
      let n = 1 + length xs in
      let s = new_step n node.id in
      rerun xs (node.id ∷ ys) state db db' (set_step s db') h loaded
        (Over-put_step 1 xs s db' (omega arith) over)
        (run_nodes-entered n ys node state db' known fresh)
