-- ===== src/Lib.antt =====
-- The decision core of the L2C agent: the worker that collects job postings from a screen, the
-- investigation that plans its collections, and the registry of runs that a user sees.
--
-- How the parts interact. An investigation (agent/graph/investigation_*.py) inspects the evidence in
-- the database, plans collections, and for each one runs a worker and persists its batch; the worker
-- (agent/graph/workflow.py, agent/runtime) observes a screen, decides an action, by a queued job
-- card, by a replayed rule or by the model, executes it and judges its effect; the registry
-- (agent/observability/run_registry.py) keeps the entries of the runs for the web server.
--
-- Which file models which part:
-- - Common, Common.Text: shared names; Python's text operations and agent/utils/text.py
--   `normalize_text`.
-- - Site: agent/runtime/site_context.py, the page roles and the evidence for a detail page.
-- - Worker.State: the sections of `WorkerState` (agent/runtime/worker_contracts.py) and the queries of
--   agent/runtime/worker_state.py. Worker.Routing: the routes of agent/graph/workflow.py.
--   Worker.Replay: agent/recipe/replay_runtime.py and `ReplaySession` of
--   shared/schema/experience_rule_schema.py. Worker.Texts, Worker.Effect:
--   agent/graph/worker_transition.py and agent/runtime/transition_runtime.py; `inspect_action_effect`
--   and `complete_action_effect` return the state with their update merged. Worker.Cycle: the nodes
--   of agent/graph/worker_cycle.py. Worker.Rules, Worker.Judged and Worker.Decided are about these.
-- - Worker.History: the history of executed actions, `attach_action_transition` of
--   agent/runtime/worker_contracts.py and `latest_no_effect_transition` of
--   agent/runtime/transition_runtime.py.
-- - Execution.Permission: agent/runtime/action_permissions.py. Execution.Policy:
--   agent/runtime/worker_actions.py and agent/graph/worker_execution_policy.py. Execution.Context:
--   agent/graph/worker_execution_context.py, worker_action_recording.py, worker_transition_recording.py
--   and agent/recipe/record.py. Execution.Dispatch, Effects and Run:
--   agent/graph/worker_execution_dispatch.py, worker_action_effects.py, worker_action_guard.py and
--   worker_execution.py. A context names a state; once a state action has replaced it by a copy, the
--   loop's own state stands in `left_behind`. Keeps, Numbered, Attached, Permitted, Errors,
--   StateActions, Opened and Contract are about these.
-- - Selection.Stored, Log, Binding and Rules: the choice among the stored rules, agent/recipe/replay.py,
--   its log of rejections and its binding of targets; Selection.Accounts and Chosen are about it.
-- - Detail.Lines: the grouping of a screen's markers into lines, agent/runtime/detail_runtime.py;
--   Detail.Grouping is about it. Detail.Buffer: the buffer of a job's detail page, agent/runtime/detail_runtime.py (`image_path` is
--   the pair of its name and its resolved path, `JobDetailBuffer` without its boxes as ratios).
--   Detail.Bounds, Rendered and Overflow are about it.
-- - JobCards.Queue, Select, Lifecycle: agent/runtime/job_card_queue.py, function by function under its
--   names (`_normalized_job_card` is `normalized_job_card`). The other modules of JobCards are about
--   these.
-- - Registry.Items, Runs: the ordered dictionary and the methods of `RunRegistry` under their names
--   (`_finish` is `finish`). The clock is an argument of each call. Registry.Bounds makes a call a
--   value and a run of the registry a list of calls.
-- - Planning.Contract, Steps: shared/schema/investigation_schema.py,
--   shared/schema/collection_intent.py and the planning functions of
--   agent/graph/investigation_evidence_policy.py. Planning.Sound is about these.
--   Planning.Validate: the validation of evidence in the same file; Planning.Validated is about it.
-- - Investigation.State, Outcome, Nodes: the sections of the investigation's state and
--   agent/graph/investigation_collection_nodes.py, agent/graph/investigation_evidence_nodes.py with
--   the routes of agent/graph/investigation_workflow.py. Investigation.Graph: the compiled graph as a
--   step relation on the next node and the state. Validity, Safety, Collected, Termination and
--   Results are about these.
-- - Examples: concrete inputs.
--
-- How the model reads the code. A key that is missing from a dictionary is the value that every
-- reader puts in its place. Job ids, marker ids and counts are natural numbers; a job id whose text
-- is not made of digits is no id. A pixel ratio is the pair of counts that it divides. A pydantic
-- model is a record of the fields that the modelled code reads. Texts that are only shown or logged
-- are left out of results. The failure of a call is a value: `Attempt` for the calls of the
-- investigation's nodes, `broken` for a node without its step or batch, `Completion` for the two
-- errors of `complete_action_effect`, `NodeEnd` for these and the exceptions of the inner nodes of a
-- decision, `Raises` for a tool and for the marking of stored cards, `none` for the error of
-- `route_after_decision`. The arguments that `dispatch_ui_action` needs are
-- never missing, since `ActionRequest` validates each call against the required fields of its schema
-- (agent/runtime/tool_schema.py); an optional text that is absent is the empty one.
--
-- Parameters for what the repository does not hold: the character database of Python (`Unicode`), the
-- patterns of `re` and the site profiles that pydantic reads (`Sites`), the comparison of frames by
-- OpenCV (`Frames`, `Screen`), the host of a URL by urllib (`Env`), floating-point arithmetic (`Floats`), the JSON encoding and the sorting of texts in the signature of a step
-- (`dumps`, `sort_texts`). Parameters for code of the repository that is not modelled: the matching
-- of URL scopes and URL templates (agent/utils/text.py, in `Frames`, `Screen` and `Env`), the
-- physical tools of agent/tools/actions.py (`Tools`), the signature of a target, the marking of stored
-- cards and the mode of a review (`Env`), the resolution of saved targets (`ReplayContext`) and the
-- inner nodes of a decision (`Steps`), with their exceptions.
--
-- Fuel: `show_fuel` prints a number with n + 1 rounds, one for each digit and to spare; every other
-- function is by structural recursion.
--
-- Not modelled: prompts and answers of the language models, OCR and frame comparison, the database,
-- the web server, the benchmarks and the scripts of the classic collectors. Exceptions while an
-- executed action is recorded (agent/recipe/record.py, its target signature) are not modelled: the
-- recording is total.
pub mod Common
pub mod Site
pub mod Worker
pub mod JobCards
pub mod Execution
pub mod Detail
pub mod Selection
pub mod Registry
pub mod Planning
pub mod Investigation
pub mod Examples
