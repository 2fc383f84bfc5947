-- ===== src/Lib.antt =====
-- Verification of the agenstfer-agi control plane: the Python package apps/api/agi_server of the
-- repository. The program lets an operator draw a workflow of nodes, validates it, runs it with
-- language-model agents whose claims pass an evidence gate, and asks a human to approve the
-- knowledge that a run proposes.
--
-- The modules of this library follow the parts of the program:
--
-- - Base: shared names, decisions, lists, texts, results, Python's dict (Base.Dict), sets as
--   lists (Base.Sets) and sorted (Base.Sort). Json: the values of a node's configuration.
-- - Workflow.Models, Workflow.Catalog: workflow/models.py and workflow/catalog.py.
-- - Workflow.Validator: validate_workflow of workflow/validator.py. Checks holds the tests on
--   single nodes and the approval's place, Links the loop over the edges, Graph the two work
--   lists; the parent composes them as the function does. Its result is the report or the
--   exception that Python raises.
-- - Workflow.Default: build_default_workflow of workflow/default.py. Workflow.Triggers: the rules
--   of workflow/triggers.py and match_rules.
-- - Evidence.Contracts, Evidence.Batches, Evidence.Reviewer, Evidence.Gate: the claims and
--   decisions of agents/contracts.py, and _evidence_review_batches, _run_evidence_reviewer and
--   _enforce_evidence_gate of diagnostics/service.py. The agent that reviews a batch is a
--   parameter of the reviewer.
-- - Approvals.State: the rows of db.py that an approval touches, and a session with its live
--   objects and what was last committed. Approvals.Candidates: approve_candidate and
--   reject_candidate of okf/lifecycle.py; the git merge is a parameter. Approvals.Expiry:
--   expire_approval_state of workflow/persistent_runtime.py and expire_approvals of
--   workflow/scheduler.py. Approvals.Decision: decide_persisted_approval up to the resumption of
--   the run; the search index's answer is a parameter.
-- - Registry.Rows, Registry.Drafts, Registry.Bindings, Registry.Publish:
--   workflow/registry_service.py. The versioned rows of workflows and agents; seeding, saving and
--   cloning; validate_workflow_bindings; publish_workflow. Registry.Published has a step relation
--   over these operations. The specs of the built-in agents, which are read from files, are a
--   parameter.
-- - Events: ingest_webhook_event of workflow/events.py with the inbox and the dispatch queue; the
--   random ids are parameters. Policy: classify_model_data_scope and enforce_cloud_data_policy of
--   agents/runtime.py, on the results of the two queries. Policy.Profiles: resolve_model_profile
--   of agents/model_gateway.py, which the bindings of the registry call, too.
-- - Runtime.Values, Runtime.Conditions: Python's operations on JSON values, and
--   evaluate_condition of workflow/persistent_runtime.py. Runtime.Store: the rows of one run.
--   Runtime.Engine: the loop of resume_persisted_workflow; what a node's work does to the state
--   is a parameter. Runtime.Restart and Runtime.Approved follow it through interruptions and
--   approvals. Runtime.Nodes: _execute_node; the sync, the metrics, an agent's run and the report
--   are parameters. Runtime.Graph: LangGraphWorkflowEngine of workflow/langgraph_runtime.py; the
--   names that the builder of the langgraph package takes and the invocation of the compiled
--   chain are parameters, and IsChain says what the code relies on, up to the package's recursion
--   limit. Runtime.Tables, Runtime.Start: start_persisted_workflow, resume_persisted_workflow up
--   to its engines and _execute_workflow_in_background. Runtime.Start.Service: the start as the
--   scheduler uses it.
-- - Scheduler.Clock: the local times of the scheduler, minutes of days that exist, with their
--   weekdays. Scheduler.Cron: _field_matches and cron_matches of workflow/scheduler.py and
--   validate_schedule of workflow/registry_service.py. Scheduler.Due: create_schedule and
--   run_due_schedules. Scheduler.Dispatch: dispatch_queued_events. The conversion to a time zone
--   and str.split at blanks are parameters.
-- - Security: security.py, the routes of main.py for users and sessions, and the middleware of
--   http_security.py. Security.Users holds the table and its operations, Security.Requests who a
--   request is from, Security.Routes the routes of sessions. The hasher, the random ids and
--   tokens, and str.lower are parameters.
--
-- Both loops of the validator run on fuel: the sorting loop on one round for each node, the walk
-- from the trigger on one round for each node and each edge. The third error of the validator
-- stands for fuel that ran out.
--
-- Not modelled: the other HTTP routes of main.py, the models' and agents' calls, connectors,
-- ingestion, git and search access, metrics, exports and settings; columns and messages that no
-- modelled operation reads. Times are numbers of seconds, and the times that one call takes are
-- one instant. Database calls do not fail, and no two sessions interleave.
pub mod Base
pub mod Json
pub mod Workflow
pub mod Evidence
pub mod Approvals
pub mod Registry
pub mod Events
pub mod Policy
pub mod Runtime
pub mod Scheduler
pub mod Security
