-- ===== src/Registry/Drafts.antt =====
-- The operations of workflow/registry_service.py on drafts, and the rows that seeding adds. A row
-- that an operation returns is one that it has written. The specs of the built-in agents, which
-- are read from files, and the configured model profile are parameters.
use Prim.Native.Char.{code}
use Prim.Native.String.{String, count, ◌++◌}
use agenstfer_agi.Base.{
  ℕ, suc, Bool, true, false, ◌&&◌, ◌||◌, not, Option, none, some, List, [], ◌∷◌, nat_beq, all, ◌==◌,
  if◌then◌else◌, leb, Result, ok, err, is_empty,
}
use agenstfer_agi.Base.Sets.{elem}
use agenstfer_agi.Workflow.Models.{WorkflowDefinition}
use agenstfer_agi.Workflow.Default.{build_default_workflow}
use agenstfer_agi.Registry.Rows.{
  ManagedAgentSpec, draft, published, DefinitionRow, WorkflowDefinitionRow, AgentDefinitionRow,
  Registry, is_draft, row_at, set_row, max_version, is_there,
}

pub data RegistryError : Type 0 where
  value_error runtime_error : RegistryError

-- What an operation leaves in the tables, and what it returns or raises.
abbrev pub Outcome : Type 0 → Type 0
Outcome A = Registry × Result RegistryError A

abbrev between : ℕ → ℕ → ℕ → Bool
between low high n = leb low n && leb n high

abbrev is_lower : ℕ → Bool
is_lower c = between b'a' b'z' c

abbrev is_id_part : ℕ → Bool
is_id_part c = is_lower c || between b'0' b'9' c || nat_beq c b'_' || nat_beq c b'-'

unfoldable pub all_id_parts : String → Bool
all_id_parts String.[] = true
all_id_parts (String.◌∷◌ c s) = is_id_part (code c) && all_id_parts s

-- `SAFE_ID.fullmatch(id)`
unfoldable pub safe_id : String → Bool
unfolding all_id_parts
safe_id String.[] = false
safe_id (String.◌∷◌ c s) = is_lower (code c) && all_id_parts s && between 2 79 (count s)

module _ {A : Type 0} where
  -- `db.add(row)` of a draft, under a version that the table does not have.
  abbrev pub draft_row : String → ℕ → String → A → Option String → DefinitionRow A
  draft_row id version name definition actor_id = record {
    id = id;
    version = version;
    name = name;
    status = draft;
    definition = definition;
    created_by = actor_id;
  }

  -- What saving a draft does to a table: an insertion, a replacement, or a refusal.
  unfoldable pub save_draft :
      String
      → ℕ
      → String
      → A
      → Option String
      → List (DefinitionRow A)
      → Result RegistryError (List (DefinitionRow A) × DefinitionRow A)
  unfolding row_at set_row max_version is_draft
  save_draft id version name definition actor_id rows = elim (row_at id version rows) [
    | none ↦
        if is_there (max_version id rows)
        then err value_error
        else if not (nat_beq version 1)
        then err value_error
        else (let row = draft_row id version name definition actor_id in ok (row ∷ rows, row))
    | some old ↦
        if not (is_draft old.status)
        then err value_error
        else let row = record old { name = name; definition = definition } in
          ok (set_row row rows, row)
  ]

  abbrev pub next_version : String → List (DefinitionRow A) → ℕ
  next_version id rows = suc (elim (max_version id rows) [ none ↦ 0 | some v ↦ v ])

-- `if db.get(Row, key) is None: db.add(row)`
unfoldable pub add_missing :
    {A : Type 0} → DefinitionRow A → List (DefinitionRow A) → List (DefinitionRow A)
unfolding row_at
add_missing row rows = if is_there (row_at row.id row.version rows) then rows else row ∷ rows

abbrev agent_row : ManagedAgentSpec → AgentDefinitionRow
agent_row spec = record {
  id = spec.id;
  version = spec.version;
  name = spec.name;
  status = published;
  definition = spec;
  created_by = none;
}

unfoldable pub seed_agents :
    List ManagedAgentSpec → List AgentDefinitionRow → List AgentDefinitionRow
unfolding add_missing
seed_agents [] rows = rows
seed_agents (spec ∷ specs) rows = seed_agents specs (add_missing (agent_row spec) rows)

-- The keys of `BUILTIN_CAPABILITIES`.
abbrev pub builtin_capabilities : List String
builtin_capabilities =
    "knowledge.search" ∷ "knowledge.read_source" ∷ "context.query" ∷ "wiki.propose_update"
    ∷ "web.scrape" ∷ "crm.read" ∷ "erp.read" ∷ "metrics.calculate" ∷ "battlecard.generate"
    ∷ "mcp.query" ∷ "mcp.read_resource" ∷ []

unfoldable pub seed_capabilities : List String → List String → List String
unfolding elem
seed_capabilities [] ids = ids
seed_capabilities (c ∷ cs) ids = seed_capabilities cs (if elem c ids then ids else c ∷ ids)

unfoldable pub default_row : Option String → WorkflowDefinitionRow
unfolding build_default_workflow
default_row profile =
    let w = record (build_default_workflow profile) { status = "published" } in
    record {
      id = w.id;
      version = w.version;
      name = w.name;
      status = published;
      definition = w;
      created_by = none;
    }

unfoldable pub seed_workflow :
    Option String → List WorkflowDefinitionRow → List WorkflowDefinitionRow
unfolding add_missing default_row
seed_workflow profile rows = add_missing (default_row profile) rows

unfoldable pub with_workflows :
    Registry
    → Result RegistryError (List WorkflowDefinitionRow × WorkflowDefinitionRow)
    → Outcome WorkflowDefinitionRow
with_workflows db (ok (rows, row)) = (record db { workflows = rows }, ok row)
with_workflows db (err e) = (db, err e)

-- What follows a seeding that has raised nothing.
unfoldable pub after_seeding :
    {A : Type 0} → (Registry → Outcome A) → Outcome (Unit {0}) → Outcome A
after_seeding f (db, ok u) = f db
after_seeding f (db, err e) = (db, err e)

module _ (specs : List ManagedAgentSpec) (profile : Option String) where
  unfoldable pub ensure_platform_registry : Registry → Outcome (Unit {0})
  unfolding seed_agents seed_capabilities seed_workflow
  ensure_platform_registry db = if is_empty specs then (db, err runtime_error) else (
    record {
      workflows = seed_workflow profile db.workflows;
      agents = seed_agents specs db.agents;
      capabilities = seed_capabilities builtin_capabilities db.capabilities;
    },
    ok tt,
  )

  -- From the lookup of the row on.
  unfoldable pub save_workflow_row :
      WorkflowDefinition → Option String → Registry → Outcome WorkflowDefinitionRow
  unfolding save_draft with_workflows
  save_workflow_row definition actor_id db =
      let payload = record definition { status = "draft" } in
      with_workflows db
        (save_draft definition.id definition.version definition.name payload actor_id db.workflows)

  unfoldable pub save_workflow_draft :
      WorkflowDefinition → Option String → Registry → Outcome WorkflowDefinitionRow
  unfolding safe_id after_seeding ensure_platform_registry save_workflow_row
  save_workflow_draft definition actor_id db =
      if not (safe_id definition.id)
      then (db, err value_error)
      else after_seeding (save_workflow_row definition actor_id) (ensure_platform_registry db)

unfoldable pub clone_row :
    {A : Type 0}
    → String
    → String
    → (ℕ → A)
    → Option String
    → List (DefinitionRow A)
    → DefinitionRow A
unfolding max_version
clone_row id name payload actor_id rows =
    let version = next_version id rows in draft_row id version name (payload version) actor_id

-- `target_id or source.id`
unfoldable pub clone_target : Option String → String → String
clone_target none id = id
clone_target (some target) id = if target == "" then id else target

unfoldable pub clone_name : Option String → String → String
clone_name none name = name
clone_name (some target) name = if target == "" then name else name ++ " (copy)"

unfoldable pub clone_workflow_version :
    WorkflowDefinitionRow → Option String → Option String → Registry → Outcome WorkflowDefinitionRow
unfolding safe_id clone_row clone_target clone_name
clone_workflow_version source actor_id target_id db =
    let id = clone_target target_id source.id in
    let payload =
      λ (version : ℕ). record source.definition { id = id; version = version; status = "draft" } in
    let row = clone_row id (clone_name target_id source.name) payload actor_id db.workflows in
    if not (safe_id id)
    then (db, err value_error)
    else (record db { workflows = row ∷ db.workflows }, ok row)

unfoldable pub clone_agent_version :
    AgentDefinitionRow → Option String → Registry → Outcome AgentDefinitionRow
unfolding clone_row
clone_agent_version source actor_id db =
    let payload = λ (version : ℕ). record source.definition { version = version } in
    let row = clone_row source.id source.name payload actor_id db.agents in
    (record db { agents = row ∷ db.agents }, ok row)

unfoldable pub save_agent_draft :
    ManagedAgentSpec → Option String → Registry → Outcome AgentDefinitionRow
unfolding elem save_draft
save_agent_draft spec actor_id db =
    if not (all (λ c. elem c db.capabilities) spec.capabilities)
    then (db, err value_error)
    else elim (save_draft spec.id spec.version spec.name spec actor_id db.agents) [
      | ok (rows, row) ↦ (record db { agents = rows }, ok row)
      | err e ↦ (db, err e)
    ]

unfoldable pub publish_agent : AgentDefinitionRow → Registry → Outcome AgentDefinitionRow
unfolding is_draft set_row
publish_agent row db =
    if not (is_draft row.status)
    then (db, err value_error)
    else let row' = record row { status = published } in
      (record db { agents = set_row row' db.agents }, ok row')
