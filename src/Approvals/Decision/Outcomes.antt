-- ===== src/Approvals/Decision/Outcomes.antt =====
-- Decisions on an approval that is closed, on time, or whose candidate is late.
use agenstfer_agi.Base.{
  ℕ, String, ◌≡◌, refl, ap, ◌∙◌, Bool, true, false, if◌then◌else◌, ◌==◌, Option, some, [], ◌∷◌,
  eq_iff, arith, leb, ok, err,
}
use agenstfer_agi.Base.Dict.{Dict, get, put, get-put, get-put_same}
use agenstfer_agi.Approvals.State.{
  ApprovalStatus, CandidateStatus, RunStatus, StepStatus, ApprovalRequest, OkfCandidate,
  WorkflowRun, Db, Session, value_error, put_approval, put_candidate, put_run, put_waiting,
}
use agenstfer_agi.Approvals.State.Steps.{Closes, update_waiting-Closes}
use agenstfer_agi.Approvals.Candidates.{
  is_pending, truthy, approve_candidate, merge_row, decide_row,
}
use agenstfer_agi.Approvals.Expiry.{is_open, candidate_of}
use agenstfer_agi.Approvals.Decision.{
  answered, resumed, key_is, is_submitted, key_taken, sign, apply_decision, approve_decision,
  approve_step, decide_open, decide_locked, decide_persisted_approval,
}

module _ (now : ℕ) (actor_id : Option String) (reason key : String)
    (merge : String → String → Option String) (qmd : String) where
  -- A decision on an approval that is no longer open changes nothing.
  pub decide_closed :
      (approval_id decision : String) (a : ApprovalRequest) (s : Session)
      → get approval_id s.live.approvals ≡ some a
      → is_open a.status ≡ false
      → (decide_persisted_approval now actor_id reason key merge qmd approval_id decision s).0 ≡ s
  unfolding decide_persisted_approval decide_locked
  decide_closed approval_id decision a s there closed = rw (there) (ground arith)

  -- A key that an approval has recorded is answered from the record.
  decide_again :
      (approval_id decision : String) (a : ApprovalRequest) (run : WorkflowRun) (s : Session)
      → get approval_id s.live.approvals ≡ some a
      → key_is key a ≡ true
      → is_submitted a.status ≡ false
      → key_taken key a.id s.live.approvals ≡ false
      → get a.run_id s.live.runs ≡ some run
      → decide_persisted_approval now actor_id reason key merge qmd approval_id decision s
        ≡ (s, ok (answered run "duplicate"))
  unfolding decide_persisted_approval decide_locked
  decide_again approval_id decision a run s there signed settled free has_run =
      rw there (ground arith)

key_taken-put :
    (key k id : String) (a : ApprovalRequest) (d : Dict ApprovalRequest)
    → a.id ≡ id
    → key_taken key id d ≡ false
    → key_taken key id (put k a d) ≡ false
unfolding key_taken put
key_taken-put key k id a [] same free = ground (arith, eq_iff a.id id)
key_taken-put key k id a ((j, b) ∷ d) same free =
    ground (arith, eq_iff a.id id, key_taken-put key k id a d same)

same_else :
    (t : Bool) (x y z : Option ApprovalRequest)
    → (if t then x else if t then y else z) ≡ (if t then x else z)
same_else true x y z = refl
same_else false x y z = refl

twice_put :
    (k id : String) (a b : ApprovalRequest) (d : Dict ApprovalRequest)
    → get id (put k b (put k a d)) ≡ (if k == id then some b else get id d)
twice_put k id a b d = rw (get-put k id b (put k a d), get-put k id a d) (same_else (k == id) _ _ _)

-- What an approval that is open and was never decided meets when it is approved.
pub record Ready (key : String) (now : ℕ) (a : ApprovalRequest) (run : WorkflowRun)
    (c : OkfCandidate) (s : Session) : Type 0 where
  pub there : get a.id s.live.approvals ≡ some a
  pub pending : a.status ≡ ApprovalStatus.pending
  pub unsigned : key_is key a ≡ false
  pub free : key_taken key a.id s.live.approvals ≡ false
  pub run_there : get a.run_id s.live.runs ≡ some run
  pub in_time : leb a.expires_at now ≡ false
  pub owned : candidate_of a s.live ≡ some c
  pub candidate_there : get c.id s.live.candidates ≡ some c
  pub candidate_open : is_pending c.status ≡ true

module _ (now : ℕ) (actor_id : Option String) (reason key : String)
    (merge : String → String → Option String) (qmd : String) where
  decide-Ready :
      (decision : String) (a : ApprovalRequest) (run : WorkflowRun) (c : OkfCandidate) (s : Session)
      → Ready key now a run c s
      → decide_persisted_approval now actor_id reason key merge qmd a.id decision s
        ≡ apply_decision now actor_id reason key merge qmd decision a run (some c) s
  unfolding decide_persisted_approval decide_locked decide_open
  decide-Ready decision a run c s h =
      rw (h.there, h.unsigned, h.free, h.pending, h.run_there, h.in_time, h.owned) refl

  -- The row of an approval after a decision that came to `status`.
  abbrev pub decided : ApprovalStatus → ApprovalRequest → ApprovalRequest
  decided status a = record (sign now actor_id reason key a) { status = status }

  late_merge :
      (a : ApprovalRequest) (run : WorkflowRun) (c : OkfCandidate) (revision : String) (s : Session)
      → Ready key now a run c s
      → truthy c.candidate_revision ≡ some revision
      → leb c.expires_at now ≡ true
      → (let expired = record c { status = CandidateStatus.expired; decided_at = some now } in
          let db = put_candidate expired (put_approval (sign now actor_id reason key a) s.live) in
          apply_decision now actor_id reason key merge qmd "approved" a run (some c) s
          ≡ (record { live = db; stored = db }, err value_error))
  unfolding apply_decision approve_decision
  late_merge a run c revision s h rev late = ground (arith, h.candidate_there, h.candidate_open)

  signed_pending :
      (a : ApprovalRequest)
      → a.status ≡ ApprovalStatus.pending
      → sign now actor_id reason key a ≡ decided ApprovalStatus.pending a
  unfolding sign
  signed_pending a p = cc

  -- When an approval that is ready is approved after its candidate has expired, the decision
  -- raises an error; the approval is stored as pending, but with the key. Another decision under
  -- that key, at any time, is then answered as a duplicate.
  pub late_candidate_answers :
      (a : ApprovalRequest) (run : WorkflowRun) (c : OkfCandidate) (revision : String) (s : Session)
      → (now' : ℕ) (decision : String) → Ready key now a run c s
      → truthy c.candidate_revision ≡ some revision
      → leb c.expires_at now ≡ true
      → (let (s', r) =
            decide_persisted_approval now actor_id reason key merge qmd a.id "approved" s in
          (r ≡ err value_error)
          × (get a.id s'.stored.approvals ≡ some (decided ApprovalStatus.pending a))
          × (decide_persisted_approval now' actor_id reason key merge qmd a.id decision s'
              ≡ (s', ok (answered run "duplicate"))))
  unfolding sign key_is is_submitted
  late_candidate_answers a run c revision s now' decision h rev late =
      rw (decide-Ready "approved" a run c s h, late_merge a run c revision s h rev late)
        (
          refl,
          get-put_same a.id (sign now actor_id reason key a) s.live.approvals
              ∙ ap some (signed_pending a h.pending),
          decide_again now' actor_id reason key merge qmd a.id decision
              (sign now actor_id reason key a) run
              (record {
                live =
                    put_candidate
                      (record c { status = CandidateStatus.expired; decided_at = some now })
                      (put_approval (sign now actor_id reason key a) s.live);
                stored =
                    put_candidate
                      (record c { status = CandidateStatus.expired; decided_at = some now })
                      (put_approval (sign now actor_id reason key a) s.live);
              })
              (get-put_same a.id (sign now actor_id reason key a) s.live.approvals)
              (ground (arith, eq_iff key key)) (rw h.pending refl)
              (key_taken-put key a.id a.id (sign now actor_id reason key a) s.live.approvals refl
                h.free)
              h.run_there,
        )

  approval_applies :
      (a : ApprovalRequest) (run : WorkflowRun) (c : OkfCandidate) (revision merged : String)
      → (s : Session) → Ready key now a run c s
      → truthy c.candidate_revision ≡ some revision
      → leb c.expires_at now ≡ false
      → merge c.base_revision revision ≡ some merged
      → (let run' = record run { status = RunStatus.running } in
          let db = put_run run' (
            put_waiting run.id (approve_step now merged qmd) (
              put_approval (decided ApprovalStatus.approved a) (
                put_candidate
                  (decide_row now actor_id reason CandidateStatus.approved c)
                  (put_approval (sign now actor_id reason key a) s.live)))) in
          apply_decision now actor_id reason key merge qmd "approved" a run (some c) s
          ≡ (record { live = db; stored = db }, ok (resumed run' qmd)))
  unfolding apply_decision approve_decision approve_candidate merge_row
  approval_applies a run c revision merged s h rev in_time merges =
      ground (arith, h.candidate_there, h.candidate_open)

  -- The tables after an approval: the rows of the approval and of its candidate are approved under
  -- the decision, the run is running, the first of its steps that awaits an approval is completed,
  -- and all else is as it was.
  pub record AfterApproval (a : ApprovalRequest) (run : WorkflowRun) (c : OkfCandidate)
      (merged : String) (before after : Db) : Type 0 where
    pub approval_rows :
        (id : String)
        → get id after.approvals ≡ (
            if a.id == id
            then some (record a {
              status = ApprovalStatus.approved;
              decision_by = actor_id;
              decision_reason = some reason;
              decision_idempotency_key = some key;
              decided_at = some now;
            })
            else get id before.approvals)
    pub candidate_rows :
        (id : String)
        → get id after.candidates ≡ (
            if c.id == id
            then some (record c {
              status = CandidateStatus.approved;
              decided_by = actor_id;
              decision_reason = some reason;
              decided_at = some now;
            })
            else get id before.candidates)
    pub run_rows :
        (id : String)
        → get id after.runs ≡ (
            if run.id == id
            then some (record run { status = RunStatus.running })
            else get id before.runs)
    pub step :
        Closes run.id
          (λ t. record t {
            status = StepStatus.completed;
            completed_at = some now;
            output = some (record { decision = "approved"; revision = merged; qmd = qmd });
          })
          before.steps
          after.steps

  -- When an approval that is ready is approved while its candidate has not expired and can be
  -- merged, the rows of both are stored as approved under the decision, the run as running and the
  -- first of its steps that awaits an approval as completed with the merged revision; the run is
  -- handed on, and all other approvals, candidates, runs and steps are as they were.
  pub decide_approves :
      (a : ApprovalRequest) (run : WorkflowRun) (c : OkfCandidate) (revision merged : String)
      → (s : Session) → Ready key now a run c s
      → truthy c.candidate_revision ≡ some revision
      → leb c.expires_at now ≡ false
      → merge c.base_revision revision ≡ some merged
      → (let (s', r) =
            decide_persisted_approval now actor_id reason key merge qmd a.id "approved" s in
          (r ≡ ok (resumed (record run { status = RunStatus.running }) qmd))
          × (s'.live ≡ s'.stored)
          × AfterApproval a run c merged s.live s'.live)
  unfolding sign decide_row
  decide_approves a run c revision merged s h rev in_time merges =
      let signed = sign now actor_id reason key a in
      rw
        (
          decide-Ready "approved" a run c s h,
          approval_applies a run c revision merged s h rev in_time merges,
        )
        (
          refl,
          refl,
          record {
            approval_rows =
                λ id. twice_put a.id id signed (decided ApprovalStatus.approved a) s.live.approvals;
            candidate_rows = λ id.
                get-put c.id id (decide_row now actor_id reason CandidateStatus.approved c)
                  s.live.candidates;
            run_rows =
                λ id. get-put run.id id (record run { status = RunStatus.running }) s.live.runs;
            step = update_waiting-Closes run.id (approve_step now merged qmd) s.live.steps;
          },
        )
