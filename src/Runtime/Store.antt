-- ===== src/Runtime/Store.antt =====
-- The rows of one run (db.py) as the runtimes read and write them, and the state of a run: what
-- `output_json` holds, with its key `_active_edges` as a list of its own. Rows keep the columns
-- that the runtimes decide on; usage, hashes, agents' columns and times are left out.
use agenstfer_agi.Base.{
  ℕ, String, Bool, true, false, ◌&&◌, not, Option, none, some, List, [], ◌∷◌, nat_beq,
  if◌then◌else◌, starts_with, select,
}
use agenstfer_agi.Base.Dict.{Dict, get}
use agenstfer_agi.Json.{Json, ℤ, null}
use agenstfer_agi.Approvals.State.{RunStatus, StepStatus}
use agenstfer_agi.Runtime.Values.{py_eq}
use agenstfer_agi.Runtime.Conditions.{Failure}

pub record RunState : Type 0 where
  pub active_edges : List String
  pub entries : Dict Json

pub record Run : Type 0 where
  pub status : RunStatus
  pub current_step : Option String
  pub input_json : Json
  pub output_json : Option RunState
  pub error : Option (Option String × Failure)

pub record Step : Type 0 where
  pub step_id : String
  pub sequence : ℕ
  pub status : StepStatus
  pub output : Dict Json

-- A pending approval; it expires after `timeout_days`.
pub record Approval : Type 0 where
  pub requested_role : String
  pub candidate_id : String
  pub timeout_days : ℤ

pub record Store : Type 0 where
  pub run : Run
  pub steps : List Step
  pub approvals : List Approval
  pub candidates : List String

abbrev pub new_step : ℕ → String → Step
new_step sequence node_id = record {
  step_id = node_id;
  sequence = sequence;
  status = StepStatus.running;
  output = [];
}

unfoldable pub step_at : ℕ → List Step → Option Step
step_at n [] = none
step_at n (s ∷ ss) = if nat_beq s.sequence n then some s else step_at n ss

-- `_step` of workflow/persistent_runtime.py: the row of the sequence number, added if there is none.
unfoldable pub put_step : Step → List Step → List Step
put_step s [] = s ∷ []
put_step s (t ∷ ts) = if nat_beq t.sequence s.sequence then s ∷ ts else t ∷ put_step s ts

unfoldable pub step_or_new : ℕ → String → Option Step → Step
step_or_new sequence node_id none = new_step sequence node_id
step_or_new sequence node_id (some s) = s

-- `prior is not None and prior.status in {"completed", "skipped"}`
unfoldable pub is_over : StepStatus → Bool
is_over StepStatus.completed = true
is_over StepStatus.skipped = true
is_over _ = false

unfoldable pub passed : Option Step → Bool
unfolding is_over
passed none = false
passed (some s) = is_over s.status

unfoldable pub is_awaiting : StepStatus → Bool
is_awaiting StepStatus.awaiting_approval = true
is_awaiting _ = false

unfoldable pub is_running : StepStatus → Bool
is_running StepStatus.running = true
is_running _ = false

-- `run.output_json or {"_active_edges": [], "input": run.input_json or {}}`
unfoldable pub load_state : Run → RunState
load_state run = elim run.output_json [
  | none ↦ record { active_edges = []; entries = ("input", run.input_json) ∷ [] }
  | some s ↦ s
]

abbrev same_value : Option Json → Json → Bool
same_value none v = py_eq null v
same_value (some w) v = py_eq w v

-- `{key: value for ... if not key.startswith("_") and before.get(key) != value}`
unfoldable pub changed : Dict Json → Dict Json → Dict Json
unfolding py_eq get
changed before after =
    select
      (λ (kv : String × Json).
        not (starts_with kv.0 "_") && not (same_value (get kv.0 before) kv.1))
      after
