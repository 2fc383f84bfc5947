-- ===== src/Approvals/Decision.antt =====
-- decide_persisted_approval of workflow/persistent_runtime.py, up to the point where the run is
-- resumed. The search index's answer to a reindex request is a parameter.
pub mod Outcomes
use agenstfer_agi.Base.{
  ℕ, String, Bool, true, false, ◌&&◌, ◌||◌, not, Option, none, some, List, [], ◌∷◌, if◌then◌else◌,
  ◌==◌, leb, ok, err,
}
use agenstfer_agi.Base.Dict.{Dict, get}
use agenstfer_agi.Approvals.State.{
  ApprovalStatus, CandidateStatus, RunStatus, StepStatus, ApprovalRequest, OkfCandidate,
  WorkflowRun, WorkflowStepRun, StepOutput, Db, Session, M, Failure, lookup_error, value_error,
  ◌>>=◌, ◌>>◌, pure, raise, commit, change, fetch, put_approval, put_run, put_waiting,
}
use agenstfer_agi.Approvals.Candidates.{approve_candidate, reject_candidate}
use agenstfer_agi.Approvals.Expiry.{is_open, candidate_of, expire_approval_state, finish_step}

-- The run to answer with, or the run that is to be resumed, each with the state of the index.
pub data Next : Type 0 where
  answered resumed : WorkflowRun → String → Next

unfoldable pub key_is : String → ApprovalRequest → Bool
key_is key a = elim a.decision_idempotency_key [ none ↦ false | some k ↦ k == key ]

unfoldable pub is_submitted : ApprovalStatus → Bool
is_submitted ApprovalStatus.decision_submitted = true
is_submitted _ = false

-- Another approval was decided under the key.
unfoldable pub key_taken : String → String → Dict ApprovalRequest → Bool
unfolding key_is
key_taken key id [] = false
key_taken key id ((k, a) ∷ d) = (key_is key a && not (a.id == id)) || key_taken key id d

unfoldable pub found_approval : Option ApprovalRequest → M ApprovalRequest
found_approval none = raise lookup_error
found_approval (some a) = pure a

unfoldable pub found_run : Option WorkflowRun → M WorkflowRun
found_run none = raise lookup_error
found_run (some r) = pure r

abbrev pub approve_step : ℕ → String → String → WorkflowStepRun → WorkflowStepRun
approve_step now revision qmd t = record t {
  status = StepStatus.completed;
  completed_at = some now;
  output = some (record { decision = "approved"; revision = revision; qmd = qmd });
}

module _ (now : ℕ) (actor_id : Option String) (reason key : String) where
  -- The decision's fields, written before the decision is looked at.
  unfoldable pub sign : ApprovalRequest → ApprovalRequest
  sign a = record a {
    decision_by = actor_id;
    decision_reason = some reason;
    decision_idempotency_key = some key;
    decided_at = some now;
  }

  unfoldable pub reject_owned : Option OkfCandidate → M (Unit {0})
  unfolding reject_candidate
  reject_owned none = pure tt
  reject_owned (some c) = reject_candidate now actor_id reason c.id >>= λ _. pure tt

  unfoldable pub reject_decision : ApprovalRequest → WorkflowRun → Option OkfCandidate → M Next
  unfolding reject_owned
  reject_decision a run candidate =
      let run' = record run { status = RunStatus.rejected; completed_at = some now } in
      do
        reject_owned candidate
        change (put_approval (record a { status = ApprovalStatus.rejected }))
        change (put_run run')
        change (put_waiting run.id (finish_step StepStatus.rejected now))
        commit
        pure (answered run' "unchanged")

  module _ (merge : String → String → Option String) (qmd : String) where
    unfoldable pub approve_decision : ApprovalRequest → WorkflowRun → Option OkfCandidate → M Next
    unfolding approve_candidate
    approve_decision a run none = raise value_error
    approve_decision a run (some c) =
        let run' = record run { status = RunStatus.running } in
        do
          revision ← approve_candidate now actor_id reason merge c.id
          change (put_approval (record a { status = ApprovalStatus.approved }))
          change (put_waiting run.id (approve_step now revision qmd))
          change (put_run run')
          commit
          pure (resumed run' qmd)

    -- From the signature on.
    unfoldable pub apply_decision :
        String → ApprovalRequest → WorkflowRun → Option OkfCandidate → M Next
    unfolding sign reject_decision approve_decision
    apply_decision decision a run candidate = do
      change (put_approval (sign a))
      if decision == "rejected"
          then reject_decision (sign a) run candidate
          else if not (decision == "approved")
          then raise value_error
          else approve_decision (sign a) run candidate

    -- An open approval: expired by now, or decided.
    unfoldable pub decide_open : String → ApprovalRequest → M Next
    unfolding found_run candidate_of expire_approval_state apply_decision
    decide_open decision a = do
      o ← fetch (λ db. db.runs) a.run_id
      run ← found_run o
      if leb a.expires_at now
          then (do change (λ db. (expire_approval_state a now db).0); commit; raise value_error)
          else λ s. apply_decision decision a run (candidate_of a s.live) s

    -- The checks on the key and on the status.
    unfoldable pub decide_locked : String → ApprovalRequest → M Next
    unfolding key_is is_submitted is_open found_run decide_open
    decide_locked decision a =
        let reserved = is_submitted a.status && key_is key a in
        if key_is key a && not reserved
        then (do
          o ← fetch (λ db. db.runs) a.run_id
          run ← found_run o
          pure (answered run "duplicate"))
        else if not (is_open a.status)
        then raise value_error
        else if is_submitted a.status && not reserved
        then raise value_error
        else decide_open decision a

    unfoldable pub decide_persisted_approval : String → String → M Next
    unfolding found_approval key_taken decide_locked
    decide_persisted_approval approval_id decision = do
      o ← fetch (λ db. db.approvals) approval_id
      a ← found_approval o
      taken ← (λ s. (s, ok (key_taken key a.id s.live.approvals)))
      if taken then raise value_error else decide_locked decision a
