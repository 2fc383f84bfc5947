-- ===== src/Approvals/State/Steps.antt =====
-- The change of the step that awaits an approval.
use agenstfer_agi.Base.{String, ◌≡◌, true, false, List, [], ◌∷◌, Bool-cases, inl, inr}
use agenstfer_agi.Approvals.State.{WorkflowStepRun, waits, update_waiting}

-- The first step of a run that awaits an approval is replaced by its change, and all others stand.
pub data Closes (run_id : String) (f : WorkflowStepRun → WorkflowStepRun)
    : List WorkflowStepRun → List WorkflowStepRun → Type 0 where
  no_row : Closes run_id f [] []
  this_row :
      {t : WorkflowStepRun} {ts : List WorkflowStepRun}
      → waits run_id t ≡ true
      → Closes run_id f (t ∷ ts) (f t ∷ ts)
  later_row :
      {t : WorkflowStepRun} {ts us : List WorkflowStepRun}
      → waits run_id t ≡ false
      → Closes run_id f ts us
      → Closes run_id f (t ∷ ts) (t ∷ us)

pub update_waiting-Closes :
    (run_id : String) (f : WorkflowStepRun → WorkflowStepRun) (ts : List WorkflowStepRun)
    → Closes run_id f ts (update_waiting run_id f ts)
unfolding update_waiting
update_waiting-Closes run_id f [] = no_row
update_waiting-Closes run_id f (t ∷ ts) = elim (Bool-cases (waits run_id t)) [
  | inl e ↦ rw e (this_row e)
  | inr e ↦ rw e (later_row e (update_waiting-Closes run_id f ts))
]
