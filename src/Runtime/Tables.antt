-- ===== src/Runtime/Tables.antt =====
-- The tables that the start of a run reads and writes (db.py). A row of a run carries its steps and
-- approvals; the columns that the loop works on are its `run`.
use agenstfer_agi.Base.{ℕ, String, Option, none, some, List, [], ◌∷◌, ◌==◌, if◌then◌else◌}
use agenstfer_agi.Base.Dict.{Dict}
use agenstfer_agi.Registry.Rows.{WorkflowDefinitionRow, AgentDefinitionRow}
use agenstfer_agi.Runtime.Store.{Run, Step, Approval, Store}

pub record RunRow : Type 0 where
  pub id : String
  pub idempotency_key : String
  pub workflow_id : String
  pub workflow_version : ℕ
  pub model_profile : String
  pub agent_versions : Dict ℕ
  pub created_by : Option String
  pub run : Run
  pub steps : List Step
  pub approvals : List Approval

pub record Tables : Type 0 where
  pub workflows : List WorkflowDefinitionRow
  pub agents : List AgentDefinitionRow
  pub runs : List RunRow
  pub candidates : List String

-- `select(WorkflowRun).where(WorkflowRun.idempotency_key == key)`
unfoldable pub run_with_key : String → List RunRow → Option RunRow
run_with_key key [] = none
run_with_key key (r ∷ rs) = if r.idempotency_key == key then some r else run_with_key key rs

-- `db.get(WorkflowRun, id)`
unfoldable pub run_at : String → List RunRow → Option RunRow
run_at id [] = none
run_at id (r ∷ rs) = if r.id == id then some r else run_at id rs

-- The row that the session holds under the id, replaced.
unfoldable pub set_run : RunRow → List RunRow → List RunRow
set_run row [] = []
set_run row (r ∷ rs) = if r.id == row.id then row ∷ rs else r ∷ set_run row rs

-- What an engine works on.
abbrev pub store_of : RunRow → Tables → Store
store_of row db = record {
  run = row.run;
  steps = row.steps;
  approvals = row.approvals;
  candidates = db.candidates;
}

abbrev pub with_store : RunRow → Store → RunRow
with_store row s = record row { run = s.run; steps = s.steps; approvals = s.approvals }

-- What an engine leaves behind.
unfoldable pub save_run : RunRow → Store → Tables → Tables
unfolding set_run
save_run row s db = record db {
  runs = set_run (with_store row s) db.runs;
  candidates = s.candidates;
}
