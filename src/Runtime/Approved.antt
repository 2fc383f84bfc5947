-- ===== src/Runtime/Approved.antt =====
-- The nodes behind an approval, after that was decided.
pub mod Waits
use agenstfer_agi.Base.{
  ℕ, suc, ◌+◌, String, ◌≡◌, ◌≢◌, refl, sym, ap, ◌∙◌, Bool, true, false, ◌&&◌, ◌||◌, not, Option,
  none, some, List, [], ◌∷◌, ◌==◌, if◌then◌else◌, arith, length, Bool-cases, inl, inr, Result, ok,
  err, ◌>>=◌, select, any, map, eq_iff, eq_refl, ||-true,
}
use agenstfer_agi.Base.Dict.{Dict, get}
use agenstfer_agi.Base.Sets.{elem, add_new, elem-add_new}
use agenstfer_agi.Base.Sort.{sorted, elem-sorted}
use agenstfer_agi.Json.{Json, ℤ}
use agenstfer_agi.Workflow.Models.{WorkflowNode, WorkflowEdge, WorkflowDefinition}
use agenstfer_agi.Workflow.Validator.Checks.{is_trigger, is_approval, is_condition}
use agenstfer_agi.Workflow.Validator.Links.{node_table}
use agenstfer_agi.Workflow.Validator.Tables.{node_table-IsKeyed}
use agenstfer_agi.Approvals.State.{StepStatus}
use agenstfer_agi.Runtime.Conditions.{Failure}
use agenstfer_agi.Runtime.Store.{
  RunState, Step, Store, step_at, step_or_new, new_step, passed, load_state,
}
use agenstfer_agi.Runtime.Engine.{
  Executor, Turn, moved, waiting, Outcome, follow, outgoing, incoming, recorded_branch, branch_is,
  edge_ids, fired, enter, set_step, store_result, after_work, take_turn, visit, visit_named,
  run_nodes, is_active,
}
use agenstfer_agi.Runtime.Restart.{first_round}
use agenstfer_agi.Runtime.Restart.Turns.{state_of, await_approval-waits, Settled, visit-Settled}
use agenstfer_agi.Runtime.Approved.Waits.{waiting_round, visit-keeps}

abbrev names_approval : Option WorkflowNode → Bool
names_approval none = false
names_approval (some node) = is_approval node.kind

-- Some edge of that id leaves a node that is no approval.
unfoldable pub from_work : WorkflowDefinition → String → Bool
unfolding is_approval
from_work w id =
    any
      (λ (e : WorkflowEdge). e.id == id && not (names_approval (get e.source (node_table w.nodes))))
      w.edges

any-of_select :
    (p q : WorkflowEdge → Bool) (es : List WorkflowEdge) (id : String)
    → ((e : WorkflowEdge) → p e ≡ true → q e ≡ true)
    → elem id (edge_ids (select p es)) ≡ true
    → any (λ (e : WorkflowEdge). e.id == id && q e) es ≡ true
unfolding elem
any-of_select p q [] id imp h = cc
any-of_select p q (e ∷ es) id imp h = ground (arith, any-of_select p q es id imp, imp e)

elem-edge_ids-select :
    (p : WorkflowEdge → Bool) (es : List WorkflowEdge) (id : String)
    → elem id (edge_ids (select p es)) ≡ true
    → elem id (edge_ids es) ≡ true
unfolding elem
elem-edge_ids-select p [] id h = cc
elem-edge_ids-select p (e ∷ es) id h = ground (arith, elem-edge_ids-select p es id)

module _ (w : WorkflowDefinition) where
  outgoing-from_work :
      (node : WorkflowNode) (id : String)
      → get node.id (node_table w.nodes) ≡ some node
      → is_approval node.kind ≡ false
      → elem id (edge_ids (outgoing w node.id)) ≡ true
      → from_work w id ≡ true
  unfolding outgoing from_work
  outgoing-from_work node id known work h =
      any-of_select (λ e. e.source == node.id)
        (λ e. not (names_approval (get e.source (node_table w.nodes)))) w.edges id
        (λ e s. rw ((eq_iff e.source node.id).0 s, known, work) refl) h

  fired_if :
      (node : WorkflowNode) (b : Bool) (x : Result Failure Bool) (ids : List String) (id : String)
      → (if b
          then (x >>= λ taken. ok (
              edge_ids
                (select (λ (e : WorkflowEdge). branch_is taken e.branch) (outgoing w node.id))))
          else ok (edge_ids (outgoing w node.id)))
        ≡ ok ids
      → elem id ids ≡ true
      → elem id (edge_ids (outgoing w node.id)) ≡ true
  fired_if node true (ok taken) ids id h m =
      let p : WorkflowEdge → Bool = λ e. branch_is taken e.branch in
      let same : edge_ids (select p (outgoing w node.id)) ≡ ids = cc in
      elem-edge_ids-select p (outgoing w node.id) id (rw same m)
  fired_if node true (err e) ids id h m = cc
  fired_if node false x ids id h m =
      let same : edge_ids (outgoing w node.id) ≡ ids = cc in rw same m

  -- All active edges leave nodes that are no approvals.
  abbrev pub AllFromWork : RunState → Type 0
  AllFromWork state = (id : String) → elem id state.active_edges ≡ true → from_work w id ≡ true

  module _ (execute : Executor) where
    store_result-AllFromWork :
        (node : WorkflowNode) (step : Step) (state state' : RunState) (db db' : Store)
        → (done : List String × Dict Json) (x : Result Failure (List String))
        → ((ids : List String) (id : String)
            → x ≡ ok ids
            → elem id ids ≡ true
            → from_work w id ≡ true)
        → AllFromWork state
        → store_result execute w node step state db done x ≡ (db', ok (moved state'))
        → AllFromWork state'
    unfolding store_result
    store_result-AllFromWork node step state state' db db' done (err e) new old h = cc
    store_result-AllFromWork node step state state' db db' done (ok ids) new old h =
        let edges_are : sorted (add_new state.active_edges ids) ≡ state'.active_edges =
          ap (λ (y : Outcome Turn). (state_of state y.1).active_edges) h in
        rw (← edges_are) (λ id m. by_origin id (rw (elem-sorted, elem-add_new) at m))
      where
        by_origin :
            (id : String)
            → (elem id state.active_edges || elem id ids) ≡ true
            → from_work w id ≡ true
        by_origin id m = elim (||-true (elem id state.active_edges) (elem id ids) m) [
          | inl o ↦ old id o
          | inr n ↦ new ids id refl n
        ]

    after_work-AllFromWork :
        (node : WorkflowNode) (step : Step) (state state' : RunState) (db db' : Store)
        → (x : Result Failure (List String × Dict Json))
        → get node.id (node_table w.nodes) ≡ some node
        → is_approval node.kind ≡ false
        → AllFromWork state
        → after_work execute w node step state db x ≡ (db', ok (moved state'))
        → AllFromWork state'
    unfolding after_work fired
    after_work-AllFromWork node step state state' db db' (err e) known work old h = cc
    after_work-AllFromWork node step state state' db db' (ok done) known work old h =
        store_result-AllFromWork node step state state' db db' done (fired w node done.1)
          (λ ids id f m. outgoing-from_work node id known work (
            fired_if node (is_condition node.kind)
              (recorded_branch (get "conditions" done.1) node.id) ids id f m))
          old h

    module _ (py_str : Json → String) (py_int : Json → Option ℤ) where
      take_turn-AllFromWork :
          (node : WorkflowNode) (active : Bool) (step : Step) (state state' : RunState)
          (db db' : Store)
          → get node.id (node_table w.nodes) ≡ some node
          → AllFromWork state
          → take_turn execute w py_str py_int node active step state db ≡ (db', ok (moved state'))
          → AllFromWork state'
      unfolding take_turn
      take_turn-AllFromWork node false step state state' db db' known old h =
          let same : state ≡ state' = ap (λ (y : Outcome Turn). state_of state y.1) h in
          rw (← same) old
      take_turn-AllFromWork node true step state state' db db' known old h =
          elim (Bool-cases (is_approval node.kind)) [
            | inl e ↦ absurd (
                await_approval-waits execute w py_str py_int node step state state' db db'
                  (simp e at h))
            | inr e ↦
                after_work-AllFromWork node step state state' db db'
                  (execute node db.candidates state.entries) known e old (simp e at h)
          ]

      visit-AllFromWork :
          (n : ℕ) (node : WorkflowNode) (state state' : RunState) (db db' : Store)
          → get node.id (node_table w.nodes) ≡ some node
          → AllFromWork state
          → visit execute w py_str py_int n node state db ≡ (db', ok (moved state'))
          → AllFromWork state'
      unfolding visit
      visit-AllFromWork n node state state' db db' known old h =
          let prior = step_at n db.steps in
          elim (Bool-cases (passed prior)) [
            | inl e ↦
                let kept : ◌≡◌ {A = Outcome Turn} (db, ok (moved state)) (db', ok (moved state')) =
                  simp e at h in
                let same : state ≡ state' = ap (λ (y : Outcome Turn). state_of state y.1) kept in
                rw (← same) old
            | inr e ↦
                let step = step_or_new n node.id prior in
                take_turn-AllFromWork node (is_active w node state) step state state'
                  (enter node step db) db' known old (simp e at h)
          ]

      run_nodes-AllFromWork :
          (n : ℕ) (ids : List String) (state state' : RunState) (db db' : Store)
          → AllFromWork state
          → run_nodes execute w py_str py_int n ids state db ≡ (db', ok (moved state'))
          → AllFromWork state'
      unfolding run_nodes
      run_nodes-AllFromWork n [] state state' db db' old h =
          let same : state ≡ state' = ap (λ (y : Outcome Turn). state_of state y.1) h in
          rw (← same) old
      run_nodes-AllFromWork n (id ∷ ids) state state' db db' old h =
          let (node, known, s, d, first, rest) =
            first_round execute w py_str py_int n (get id (node_table w.nodes))
              (run_nodes execute w py_str py_int (suc n) ids) state state' db db' h in
          let own : get node.id (node_table w.nodes) ≡ some node =
            rw (node_table-IsKeyed w.nodes id node known) known in
          run_nodes-AllFromWork (suc n) ids s state' d db'
            (visit-AllFromWork n node state s db d own old first) rest

      -- What a run that comes to await approval has stored.
      AllFromWork-waits :
          (n : ℕ) (ids : List String) (state : RunState) (db db' : Store)
          → load_state db.run ≡ state
          → AllFromWork state
          → run_nodes execute w py_str py_int n ids state db ≡ (db', ok waiting)
          → AllFromWork (load_state db'.run)
      unfolding run_nodes
      AllFromWork-waits n [] state db db' loaded old h = cc
      AllFromWork-waits n (id ∷ ids) state db db' loaded old h =
          let (node, known, turn) =
            waiting_round execute w py_str py_int n (get id (node_table w.nodes))
              (run_nodes execute w py_str py_int (suc n) ids) state db db' h in
          let own : get node.id (node_table w.nodes) ≡ some node =
            rw (node_table-IsKeyed w.nodes id node known) known in
          elim turn [
            | inl stops ↦
                rw (visit-keeps execute w py_str py_int n node state db db' loaded stops) old
            | inr (s, d, first, rest) ↦
                AllFromWork-waits (suc n) ids s d db'
                  (visit-Settled execute w py_str py_int n node state s db d loaded first).loaded
                  (visit-AllFromWork n node state s db d own old first) rest
          ]

      is_active-behind :
          (node : WorkflowNode) (state : RunState) (es : List WorkflowEdge)
          → AllFromWork state
          → any (λ (e : WorkflowEdge). from_work w e.id) es ≡ false
          → any (λ (e : WorkflowEdge). elem e.id state.active_edges) es ≡ false
      is_active-behind node state [] old none_works = refl
      is_active-behind node state (e ∷ es) old none_works =
          ground (arith, old e.id, is_active-behind node state es old)

      -- A run has come to await approval, and is resumed from the state that it has stored: then a
      -- node that is no trigger and that only edges of approvals lead to is skipped when its turn
      -- comes, although the approval was given.
      pub behind_approval_skipped :
          (order xs : List String) (node : WorkflowNode) (state : RunState) (db₀ db₁ db db' : Store)
          → (load_state db₀.run).active_edges ≡ []
          → run_nodes execute w py_str py_int 1 order (load_state db₀.run) db₀ ≡ (db₁, ok waiting)
          → load_state db.run ≡ load_state db₁.run
          → run_nodes execute w py_str py_int 1 xs (load_state db.run) db ≡ (db', ok (moved state))
          → is_trigger node.kind ≡ false
          → any (λ (e : WorkflowEdge). from_work w e.id) (incoming w node.id) ≡ false
          → step_at (1 + length xs) db'.steps ≡ none
          → (let step = new_step (1 + length xs) node.id in
              visit execute w py_str py_int (1 + length xs) node state db' ≡ (
                set_step (record step { status = StepStatus.skipped }) (enter node step db'),
                ok (moved state),
              ))
      unfolding visit take_turn is_active passed step_or_new elem
      behind_approval_skipped order xs node state db₀ db₁ db db' fresh waits resumed_from h task
            behind unseen =
          let none_yet : AllFromWork (load_state db₀.run) =
            λ id m. let never = rw fresh at m in cc in
          let stored = AllFromWork-waits 1 order (load_state db₀.run) db₀ db₁ refl none_yet waits in
          let start : AllFromWork (load_state db.run) = rw resumed_from stored in
          let kept = run_nodes-AllFromWork 1 xs (load_state db.run) state db db' start h in
          simp (unseen, task, is_active-behind node state (incoming w node.id) kept behind)
