-- ===== src/Registry/Rows.antt =====
-- The tables of the registry (db.py, agents/registry.py). The primary key of a row is its id with
-- its version. The JSON column `definition` holds the model that was dumped into it. Timestamps
-- are left out; of an agent's spec, what the registry reads.
use agenstfer_agi.Base.{
  ℕ, String, Bool, true, false, ◌&&◌, Option, none, some, List, [], ◌∷◌, ◌==◌, nat_beq,
  if◌then◌else◌, leb,
}
use agenstfer_agi.Workflow.Models.{WorkflowDefinition}

pub record ManagedAgentSpec : Type 0 where
  pub id : String
  pub name : String
  pub version : ℕ
  pub output_type : String
  pub model_profile : String
  pub capabilities : List String

-- The values of the `status` column.
pub data RowStatus : Type 0 where
  draft published : RowStatus

-- A row of `workflow_definitions` or `agent_definitions`, by the model that it holds.
pub record DefinitionRow (A : Type 0) : Type 0 where
  pub id : String
  pub version : ℕ
  pub name : String
  pub status : RowStatus
  pub definition : A
  pub created_by : Option String

abbrev pub WorkflowDefinitionRow : Type 0
WorkflowDefinitionRow = DefinitionRow WorkflowDefinition

abbrev pub AgentDefinitionRow : Type 0
AgentDefinitionRow = DefinitionRow ManagedAgentSpec

pub record Registry : Type 0 where
  pub workflows : List WorkflowDefinitionRow
  pub agents : List AgentDefinitionRow
  pub capabilities : List String

unfoldable pub is_draft : RowStatus → Bool
is_draft draft = true
is_draft published = false

unfoldable pub is_published : RowStatus → Bool
is_published draft = false
is_published published = true

abbrev pub max : ℕ → Option ℕ → ℕ
max n none = n
max n (some m) = if leb n m then m else n

module _ {A : Type 0} where
  abbrev pub has_key : String → ℕ → DefinitionRow A → Bool
  has_key id version row = row.id == id && nat_beq row.version version

  -- `db.get(Row, (id, version))`
  unfoldable pub row_at : String → ℕ → List (DefinitionRow A) → Option (DefinitionRow A)
  row_at id version [] = none
  row_at id version (row ∷ rows) =
      if has_key id version row then some row else row_at id version rows

  -- The row that the session holds under the key, replaced.
  unfoldable pub set_row : DefinitionRow A → List (DefinitionRow A) → List (DefinitionRow A)
  set_row r [] = []
  set_row r (row ∷ rows) =
      let rest = set_row r rows in if has_key r.id r.version row then r ∷ rest else row ∷ rest

  -- `select(func.max(Row.version)).where(Row.id == id)`
  unfoldable pub max_version : String → List (DefinitionRow A) → Option ℕ
  max_version id [] = none
  max_version id (row ∷ rows) =
      let rest = max_version id rows in if row.id == id then some (max row.version rest) else rest

  -- The published row of the greatest version.
  unfoldable pub latest_published : String → List (DefinitionRow A) → Option (DefinitionRow A)
  unfolding is_published
  latest_published id [] = none
  latest_published id (row ∷ rows) =
      let rest = latest_published id rows in
      if row.id == id && is_published row.status
      then (elim rest [
        | none ↦ some row
        | some r ↦ if leb r.version row.version then some row else some r
      ])
      else rest

abbrev pub is_there : {A : Type 0} → Option A → Bool
is_there none = false
is_there (some a) = true

module _ {A : Type 0} where
  -- The first draft of the rows, which are ordered by descending version.
  unfoldable pub latest_draft : String → List (DefinitionRow A) → Option (DefinitionRow A)
  unfolding is_draft
  latest_draft id [] = none
  latest_draft id (row ∷ rows) =
      let rest = latest_draft id rows in
      if row.id == id && is_draft row.status
      then (elim rest [
        | none ↦ some row
        | some r ↦ if leb r.version row.version then some row else some r
      ])
      else rest

  unfoldable pub latest_row : String → List (DefinitionRow A) → Option (DefinitionRow A)
  latest_row id [] = none
  latest_row id (row ∷ rows) =
      let rest = latest_row id rows in
      if row.id == id
      then (elim rest [
        | none ↦ some row
        | some r ↦ if leb r.version row.version then some row else some r
      ])
      else rest

unfoldable pub latest_workflow :
    String → Bool → List WorkflowDefinitionRow → Option WorkflowDefinitionRow
unfolding latest_draft latest_row
latest_workflow workflow_id draft_first rows =
    if draft_first && is_there (latest_draft workflow_id rows)
    then latest_draft workflow_id rows
    else latest_row workflow_id rows
