-- ===== src/Approvals/State.antt =====
-- The rows of db.py that an approval touches, and the session that holds them. An object that is
-- fetched and mutated is the row written back under its key. Columns that no operation here reads
-- or writes are left out; a time is a number of seconds, and the times of one call are one instant.
pub mod Steps
use agenstfer_agi.Base.{
  ℕ, String, Bool, true, false, ◌&&◌, Option, List, [], ◌∷◌, if◌then◌else◌, ◌==◌, Result, ok, err,
}
use agenstfer_agi.Base.Dict.{Dict, get, put}

-- The values that the code writes into the `status` columns.
pub data ApprovalStatus : Type 0 where
  pending decision_submitted approved rejected expired : ApprovalStatus

pub data CandidateStatus : Type 0 where
  pending approved rejected expired : CandidateStatus

pub data RunStatus : Type 0 where
  running awaiting_approval completed failed rejected expired : RunStatus

pub data StepStatus : Type 0 where
  running awaiting_approval completed skipped failed rejected expired : StepStatus

pub record ApprovalRequest : Type 0 where
  pub id : String
  pub run_id : String
  pub status : ApprovalStatus
  pub candidate_id : Option String
  pub decision_by : Option String
  pub decision_reason : Option String
  pub decision_idempotency_key : Option String
  pub expires_at : ℕ
  pub decided_at : Option ℕ

pub record OkfCandidate : Type 0 where
  pub id : String
  pub status : CandidateStatus
  pub base_revision : String
  pub candidate_revision : Option String
  pub decided_by : Option String
  pub decision_reason : Option String
  pub expires_at : ℕ
  pub decided_at : Option ℕ

pub record WorkflowRun : Type 0 where
  pub id : String
  pub status : RunStatus
  pub completed_at : Option ℕ

-- What an approval step writes into `output_json`.
pub record StepOutput : Type 0 where
  pub decision : String
  pub revision : String
  pub qmd : String

pub record WorkflowStepRun : Type 0 where
  pub run_id : String
  pub sequence : ℕ
  pub status : StepStatus
  pub output : Option StepOutput
  pub completed_at : Option ℕ

pub record Db : Type 0 where
  pub approvals : Dict ApprovalRequest
  pub candidates : Dict OkfCandidate
  pub runs : Dict WorkflowRun
  pub steps : List WorkflowStepRun

-- The objects of the session, and what its last commit has stored.
pub record Session : Type 0 where
  pub live : Db
  pub stored : Db

pub data Failure : Type 0 where
  lookup_error value_error runtime_error : Failure

abbrev pub M : Type 0 → Type 0
M A = Session → Session × Result Failure A

infixl 5 ◌>>=◌ ◌>>◌
abbrev pub ◌>>=◌ : {A B : Type 0} → M A → (A → M B) → M B
◌>>=◌ m f s = let (s', r) = m s in elim r [ ok a ↦ f a s' | err e ↦ (s', err e) ]

abbrev pub ◌>>◌ : {B : Type 0} → M (Unit {0}) → M B → M B
m >> k = m >>= λ _. k

abbrev pub pure : {A : Type 0} → A → M A
pure a s = (s, ok a)

abbrev pub raise : {A : Type 0} → Failure → M A
raise e s = (s, err e)

abbrev pub commit : M (Unit {0})
commit s = (record s { stored = s.live }, ok tt)

abbrev pub change : (Db → Db) → M (Unit {0})
change f s = (record s { live = f s.live }, ok tt)

-- `db.get(Table, id)`
abbrev pub fetch : {A : Type 0} → (Db → Dict A) → String → M (Option A)
fetch table id s = (s, ok (get id (table s.live)))

abbrev pub put_approval : ApprovalRequest → Db → Db
put_approval a db = record db { approvals = put a.id a db.approvals }

abbrev pub put_candidate : OkfCandidate → Db → Db
put_candidate c db = record db { candidates = put c.id c db.candidates }

abbrev pub put_run : WorkflowRun → Db → Db
put_run r db = record db { runs = put r.id r db.runs }

abbrev pub waits : String → WorkflowStepRun → Bool
waits run_id t = t.run_id == run_id && (elim t.status [ awaiting_approval ↦ true | _ ↦ false ])

-- The step of the run that awaits approval, changed in place.
unfoldable pub update_waiting :
    String → (WorkflowStepRun → WorkflowStepRun) → List WorkflowStepRun → List WorkflowStepRun
update_waiting run_id f [] = []
update_waiting run_id f (t ∷ ts) =
    let rest = update_waiting run_id f ts in if waits run_id t then f t ∷ ts else t ∷ rest

abbrev pub put_waiting : String → (WorkflowStepRun → WorkflowStepRun) → Db → Db
put_waiting run_id f db = record db { steps = update_waiting run_id f db.steps }
