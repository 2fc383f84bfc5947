-- ===== src/Approvals/Expiry.antt =====
-- expire_approval_state of workflow/persistent_runtime.py and expire_approvals of
-- workflow/scheduler.py.
pub mod Closed
use agenstfer_agi.Base.{
  ℕ, suc, String, Bool, true, false, ◌&&◌, not, Option, none, some, List, [], ◌∷◌, if◌then◌else◌,
  leb, length,
}
use agenstfer_agi.Base.Dict.{Dict, get}
use agenstfer_agi.Approvals.State.{
  ApprovalStatus, CandidateStatus, RunStatus, StepStatus, ApprovalRequest, OkfCandidate,
  WorkflowRun, WorkflowStepRun, Db, Session, put_approval, put_candidate, put_run, put_waiting,
}
use agenstfer_agi.Approvals.Candidates.{is_pending, truthy}

-- `approval.status in {"pending", "decision_submitted"}`
unfoldable pub is_open : ApprovalStatus → Bool
is_open ApprovalStatus.pending = true
is_open ApprovalStatus.decision_submitted = true
is_open _ = false

unfoldable pub is_waiting : RunStatus → Bool
is_waiting RunStatus.awaiting_approval = true
is_waiting _ = false

unfoldable pub candidate_of : ApprovalRequest → Db → Option OkfCandidate
unfolding truthy
candidate_of a db = elim (truthy a.candidate_id) [ none ↦ none | some id ↦ get id db.candidates ]

unfoldable pub expire_run : Option WorkflowRun → ℕ → Db → Db
unfolding is_waiting
expire_run none instant db = db
expire_run (some run) instant db =
    if is_waiting run.status
    then put_run (record run { status = RunStatus.expired; completed_at = some instant }) db
    else db

unfoldable pub expire_candidate : Option OkfCandidate → Db → Db
unfolding is_pending
expire_candidate none db = db
expire_candidate (some c) db =
    if is_pending c.status
    then put_candidate (record c { status = CandidateStatus.expired }) db
    else db

abbrev pub finish_step : StepStatus → ℕ → WorkflowStepRun → WorkflowStepRun
finish_step status instant t = record t { status = status; completed_at = some instant }

-- All objects that an approval owns, for an approval that is still open.
unfoldable pub expire_open : ApprovalRequest → ℕ → Db → Db
unfolding expire_run expire_candidate candidate_of
expire_open a instant db = put_waiting a.run_id (finish_step StepStatus.expired instant) (
    expire_candidate (candidate_of a db) (
      expire_run (get a.run_id db.runs) instant (
        put_approval (record a { status = ApprovalStatus.expired; decided_at = some instant }) db)))

unfoldable pub expire_approval_state : ApprovalRequest → ℕ → Db → Db × Bool
unfolding expire_open is_open
expire_approval_state a instant db =
    if not (is_open a.status) then (db, false) else (expire_open a instant db, true)

-- The rows of the query: open, and past their time.
unfoldable pub is_due : ℕ → ApprovalRequest → Bool
unfolding is_open
is_due instant a = is_open a.status && leb a.expires_at instant

unfoldable pub due_rows : ℕ → Dict ApprovalRequest → List ApprovalRequest
unfolding is_due
due_rows instant [] = []
due_rows instant ((k, a) ∷ d) =
    let rest = due_rows instant d in if is_due instant a then a ∷ rest else rest

unfoldable pub expire_rows : ℕ → List ApprovalRequest → Db → Db
unfolding expire_approval_state
expire_rows instant [] db = db
expire_rows instant (a ∷ as') db = expire_rows instant as' (expire_approval_state a instant db).0

unfoldable pub expire_approvals : ℕ → Session → Session × ℕ
unfolding due_rows expire_rows
expire_approvals instant s =
    let rows = due_rows instant s.live.approvals in
    let db = expire_rows instant rows s.live in (record { live = db; stored = db }, length rows)
