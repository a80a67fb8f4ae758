-- ===== src/Investigation/Nodes.antt =====
-- The evidence and collection nodes and the routes between them: investigation_evidence_nodes.py,
-- investigation_collection_nodes.py and the routes of investigation_workflow.py. What the model, the
-- worker, the database and the clock answer is an argument of the node that asks; an `Attempt` is
-- a call that may raise, `aborted` being the cancellation, deadline or model timeout that the nodes
-- let pass.
use l2c.Common.{
  String, Bool, true, false, ◌&&◌, ◌||◌, not, Option, none, some, List, [], ◌∷◌, ◌++◌, map, leb,
  nat_eq, length, any, keep, first, last?, is_some, if◌then◌else◌,
}
use l2c.Common.Text.{Unicode, after_char, append}
use l2c.Planning.Contract.{
  Intent, PlanStep, EvidencePolicy, model_knowledge, web_required, database_only, member,
}
use l2c.Planning.Steps.{
  collection_capabilities_for, select_collection_steps, new_collection_steps,
  build_single_site_collection_step,
}
use l2c.Investigation.State.{
  Batch, PersistenceReport, CollectionResult, ExecutionState, InvestigationState,
}
use l2c.Investigation.Outcome.{sorted_ids, build_collection_result, failed_result}

-- What the nodes are built with.
pub record Setting : Type 0 where
  pub unicode : Unicode
  pub capabilities : List String
  pub dumps : Intent → List String → String
  pub sort_texts : List String → List String

pub data Node : Type 0 where
  clarify define_evidence inspect_evidence plan_actions replan_actions collect persist answer : Node

pub data Attempt (A : Type 0) : Type 0 where
  returned : A → Attempt A
  raised : String → Attempt A
  aborted : Attempt A

-- How a node ends: with the new execution section, by letting an exception pass, or because the
-- step or the batch that it needs is not there.
pub data Ended : Type 0 where
  updated : ExecutionState → Ended
  interrupted : Ended
  broken : Ended

unfoldable pub is_executed : ExecutionState → PlanStep → Bool
is_executed e step = member step.step_id e.executed_step_ids

unfoldable pub has_remaining_steps : ExecutionState → Bool
unfolding is_executed
has_remaining_steps e = any (λ step. not (is_executed e step)) e.plan

unfoldable pub next_step : ExecutionState → Option PlanStep
unfolding is_executed
next_step e = first (λ step. not (is_executed e step)) e.plan

unfoldable pub unused_capabilities : Setting → InvestigationState → List String
unused_capabilities g s =
    let used = map (λ (step : PlanStep). step.arguments.site) s.execution.plan in
    keep (λ tool. not (member (after_char b':' tool) used))
      (collection_capabilities_for g.unicode g.capabilities s.investigation)

unfoldable pub can_replan : Setting → InvestigationState → Bool
unfolding has_remaining_steps unused_capabilities
can_replan g s =
    not s.execution.replan_attempted
    && not (nat_eq (length s.execution.executed_step_ids) 0)
    && not s.sufficient
    && not (has_remaining_steps s.execution)
    && leb 1 (length (unused_capabilities g s))

unfoldable pub route_after_understand : InvestigationState → Node
route_after_understand s =
    if leb 1 (length s.investigation.clarification_questions)
    then clarify
    else by_policy s.investigation.evidence_policy
  where
    by_policy : EvidencePolicy → Node
    by_policy model_knowledge = answer
    by_policy _ = define_evidence

abbrev pub is_database_only : EvidencePolicy → Bool
is_database_only database_only = true
is_database_only _ = false

abbrev pub is_web_required : EvidencePolicy → Bool
is_web_required web_required = true
is_web_required _ = false

unfoldable pub route_after_evidence : Setting → InvestigationState → Node
unfolding has_remaining_steps can_replan
route_after_evidence g s =
    let policy = s.investigation.evidence_policy in
    if is_database_only policy
    then answer
    else if is_web_required policy && nat_eq (length s.execution.executed_step_ids) 0
    then plan_actions
    else if s.sufficient
    then answer
    else if has_remaining_steps s.execution
    then collect
    else if nat_eq (length s.execution.plan) 0
    then plan_actions
    else if can_replan g s
    then replan_actions
    else answer

unfoldable pub route_after_plan : InvestigationState → Node
unfolding has_remaining_steps
route_after_plan s = if has_remaining_steps s.execution then collect else answer

abbrev pub collect_or_answer : InvestigationState → Node
collect_or_answer s = if has_remaining_steps s.execution then collect else answer

-- `route_after_collect` of the nodes, and of the workflow, which replans instead of answering.
unfoldable pub collection_route : InvestigationState → Node
unfolding has_remaining_steps
collection_route s = if is_some s.execution.pending_collection then persist else collect_or_answer s

abbrev pub is_answer : Node → Bool
is_answer answer = true
is_answer _ = false

abbrev pub or_replan : Setting → InvestigationState → Node → Node
or_replan g s node = if is_answer node && can_replan g s then replan_actions else node

unfoldable pub route_after_collect : Setting → InvestigationState → Node
unfolding collection_route can_replan
route_after_collect g s = or_replan g s (collection_route s)

abbrev pub found_documents : Option CollectionResult → Bool
found_documents none = false
found_documents (some result) = leb 1 (length result.document_ids)

unfoldable pub persistence_route : InvestigationState → Node
unfolding has_remaining_steps
persistence_route s =
    if found_documents (last? s.execution.collection_results)
    then inspect_evidence
    else collect_or_answer s

unfoldable pub route_after_persist : Setting → InvestigationState → Node
unfolding persistence_route can_replan
route_after_persist g s = or_replan g s (persistence_route s)

abbrev pub planned : Option PlanStep → List PlanStep → String → ExecutionState → ExecutionState
planned (some step) steps reason e = record e { plan = step ∷ []; cannot_proceed_reason = "" }
planned none steps reason e = record e { plan = steps; cannot_proceed_reason = reason }

-- `plan_actions`, with the steps and the reason of the model's plan.
unfoldable pub plan_actions_node :
    Setting → InvestigationState → List PlanStep → String → ExecutionState
plan_actions_node g s proposed reason =
    planned
      (build_single_site_collection_step g.unicode s.investigation s.requirements
        (collection_capabilities_for g.unicode g.capabilities s.investigation))
      (select_collection_steps g.dumps g.unicode proposed s.requirements g.capabilities) reason
      s.execution

abbrev pub replanned : List PlanStep → String → ExecutionState → ExecutionState
replanned accepted reason e = record e {
  plan = e.plan ++ accepted;
  cannot_proceed_reason = (if leb 1 (length accepted) then "" else reason);
  replan_attempted = true;
}

unfoldable pub replan_actions_node :
    Setting → InvestigationState → List PlanStep → String → ExecutionState
unfolding unused_capabilities
replan_actions_node g s proposed reason =
    let unused = unused_capabilities g s in
    if s.execution.replan_attempted || nat_eq (length unused) 0
    then record s.execution { replan_attempted = true }
    else replanned
        (new_collection_steps g.dumps g.sort_texts s.execution.plan
          (select_collection_steps g.dumps g.unicode proposed s.requirements unused))
        reason s.execution

unfoldable pub complete_step_update : ExecutionState → PlanStep → CollectionResult → ExecutionState
complete_step_update e step result = record e {
  executed_step_ids = e.executed_step_ids ++ step.step_id ∷ [];
  collection_document_ids = sorted_ids (e.collection_document_ids ++ result.document_ids);
  collection_results = e.collection_results ++ result ∷ [];
  pending_collection = none;
}

abbrev pub collected : ExecutionState → Option PlanStep → Attempt Batch → Ended
collected e none attempt = broken
collected e (some step) (returned batch) = updated (record e { pending_collection = some batch })
collected e (some step) (raised name) =
    updated (complete_step_update e step (failed_result step.arguments "collection_worker_failed"))
collected e (some step) aborted = interrupted

unfoldable pub collect_node : ExecutionState → Attempt Batch → Ended
unfolding next_step complete_step_update
collect_node e attempt = collected e (next_step e) attempt

abbrev pub stored :
    Setting → ExecutionState → Option Batch → Option PlanStep → Attempt PersistenceReport → Ended
stored g e none step attempt = broken
stored g e (some batch) none attempt = broken
stored g e (some batch) (some step) (returned report) =
    updated (complete_step_update e step (build_collection_result g.unicode batch report))
stored g e (some batch) (some step) (raised name) =
    updated (
      complete_step_update e step (failed_result step.arguments (append "persistence_error:" name)))
stored g e (some batch) (some step) aborted = interrupted

-- `record_experience` may fail too; its failure is caught and its result is not read.
unfoldable pub persist_node : Setting → ExecutionState → Attempt PersistenceReport → Ended
unfolding next_step complete_step_update
persist_node g e attempt = stored g e e.pending_collection (next_step e) attempt
