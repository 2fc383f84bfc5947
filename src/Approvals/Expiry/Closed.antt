-- ===== src/Approvals/Expiry/Closed.antt =====
-- The expiry of an approval, and the rows that it owns.
use agenstfer_agi.Base.{ℕ, String, ◌≡◌, List, false, some, arith}
use agenstfer_agi.Base.Dict.{get, put}
use agenstfer_agi.Approvals.State.{
  ApprovalStatus, StepStatus, ApprovalRequest, OkfCandidate, WorkflowRun, WorkflowStepRun, Db,
}
use agenstfer_agi.Approvals.State.Steps.{Closes}
use agenstfer_agi.Approvals.Candidates.{is_pending}
use agenstfer_agi.Approvals.Expiry.{is_waiting, candidate_of, expire_open}

-- Every row stands under its own id.
pub record IsKeyed (db : Db) : Type 0 where
  pub approvals : (k : String) (a : ApprovalRequest) → get k db.approvals ≡ some a → a.id ≡ k
  pub candidates : (k : String) (c : OkfCandidate) → get k db.candidates ≡ some c → c.id ≡ k
  pub runs : (k : String) (r : WorkflowRun) → get k db.runs ≡ some r → r.id ≡ k

module _ (a : ApprovalRequest) (instant : ℕ) (db : Db) where
  pub approvals-expire_open :
      (expire_open a instant db).approvals
      ≡ put a.id
          (record a { status = ApprovalStatus.expired; decided_at = some instant })
          db.approvals
  unfolding expire_open
  approvals-expire_open = ground arith

-- No run awaits an approval that has expired, no candidate is left pending for it, and the step that
-- awaited it has expired, too.
pub record Released (a : ApprovalRequest) (instant : ℕ) (before : List WorkflowStepRun) (db : Db)
    : Type 0 where
  pub approval :
      get a.id db.approvals
      ≡ some (record a { status = ApprovalStatus.expired; decided_at = some instant })
  pub run : (r : WorkflowRun) → get a.run_id db.runs ≡ some r → is_waiting r.status ≡ false
  pub candidate : (c : OkfCandidate) → candidate_of a db ≡ some c → is_pending c.status ≡ false
  pub step :
      Closes a.run_id
        (λ t. record t { status = StepStatus.expired; completed_at = some instant })
        before
        db.steps
