-- ===== src/Approvals/Samples.antt =====
-- One run that waits for one approval of one candidate, and the theorems on it.
use agenstfer_agi.Base.{
  String, ◌≡◌, refl, Option, none, some, [], ◌∷◌, ◌==◌, if◌then◌else◌, ok, err,
}
use agenstfer_agi.Base.Dict.{get}
use agenstfer_agi.Approvals.State.{
  ApprovalStatus, CandidateStatus, RunStatus, StepStatus, ApprovalRequest, OkfCandidate,
  WorkflowRun, WorkflowStepRun, Db, Session, value_error,
}
use agenstfer_agi.Approvals.Candidates.{is_pending, truthy}
use agenstfer_agi.Approvals.Expiry.{is_open, candidate_of}
use agenstfer_agi.Approvals.Decision.{
  answered, resumed, key_is, key_taken, decide_persisted_approval,
}
use agenstfer_agi.Approvals.Decision.Outcomes.{
  Ready, AfterApproval, decided, decide_closed, late_candidate_answers, decide_approves,
}

abbrev approval : ApprovalRequest
approval = record {
  id = "a";
  run_id = "r";
  status = ApprovalStatus.pending;
  candidate_id = some "c";
  decision_by = none;
  decision_reason = none;
  decision_idempotency_key = none;
  expires_at = 100;
  decided_at = none;
}

abbrev closed : ApprovalRequest
closed = record approval { status = ApprovalStatus.approved }

abbrev candidate : OkfCandidate
candidate = record {
  id = "c";
  status = CandidateStatus.pending;
  base_revision = "1";
  candidate_revision = some "2";
  decided_by = none;
  decision_reason = none;
  expires_at = 50;
  decided_at = none;
}

abbrev run : WorkflowRun
run = record { id = "r"; status = RunStatus.awaiting_approval; completed_at = none }

abbrev step : WorkflowStepRun
step = record {
  run_id = "r";
  sequence = 7;
  status = StepStatus.awaiting_approval;
  output = none;
  completed_at = none;
}

abbrev tables : ApprovalRequest → Db
tables a = record {
  approvals = ("a", a) ∷ [];
  candidates = ("c", candidate) ∷ [];
  runs = ("r", run) ∷ [];
  steps = step ∷ [];
}

abbrev session : ApprovalRequest → Session
session a = record { live = tables a; stored = tables a }

abbrev merge : String → String → Option String
merge base revision = if base == "1" then some "3" else none

decide_closed_example :
    (decide_persisted_approval 10 none "late" "k" merge "unchanged" "a" "approved"
      (session closed)).0
    ≡ session closed
unfolding get is_open
decide_closed_example =
    decide_closed 10 none "late" "k" merge "unchanged" "a" "approved" closed (session closed) refl
      refl

ready : Ready "k" 60 approval run candidate (session approval)
unfolding get key_is key_taken candidate_of is_pending
ready = record {
  there = refl;
  pending = refl;
  unsigned = refl;
  free = refl;
  run_there = refl;
  in_time = refl;
  owned = refl;
  candidate_there = refl;
  candidate_open = refl;
}

late_candidate_answers_example :
    (let (s', r) =
        decide_persisted_approval 60 none "fine" "k" merge "queued" "a" "approved"
          (session approval) in
      (r ≡ err value_error)
      × (get "a" s'.stored.approvals
          ≡ some (decided 60 none "fine" "k" merge "queued" ApprovalStatus.pending approval))
      × (decide_persisted_approval 61 none "fine" "k" merge "queued" "a" "approved" s'
          ≡ (s', ok (answered run "duplicate"))))
unfolding truthy
late_candidate_answers_example =
    late_candidate_answers 60 none "fine" "k" merge "queued" approval run candidate "2"
      (session approval) 61 "approved" ready refl refl

early-Ready : Ready "k" 40 approval run candidate (session approval)
unfolding get key_is key_taken candidate_of is_pending
early-Ready = record {
  there = refl;
  pending = refl;
  unsigned = refl;
  free = refl;
  run_there = refl;
  in_time = refl;
  owned = refl;
  candidate_there = refl;
  candidate_open = refl;
}

decide_approves_example :
    (let (s', r) =
        decide_persisted_approval 40 none "fine" "k" merge "queued" "a" "approved"
          (session approval) in
      (r ≡ ok (resumed (record run { status = RunStatus.running }) "queued"))
      × (s'.live ≡ s'.stored)
      × AfterApproval 40 none "fine" "k" merge "queued" approval run candidate "3"
          (tables approval)
          s'.live)
unfolding truthy
decide_approves_example =
    decide_approves 40 none "fine" "k" merge "queued" approval run candidate "2" "3"
      (session approval) early-Ready refl refl refl
