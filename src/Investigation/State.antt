-- ===== src/Investigation/State.antt =====
-- The sections of the investigation state that the evidence and collection nodes read and write,
-- and the values that pass between them (shared/schema/collection_run.py, feedback_schema.py,
-- agent/graph/investigation_context.py). Texts meant only for the log or the user's eyes are left
-- out of the results.
use l2c.Common.{ℕ, String, Bool, false, Option, none, List, []}
use l2c.Planning.Contract.{Intent, Requirement, PlanStep, Investigation}

pub data RunEnd : Type 0 where
  finished recursion_limit stopped : RunEnd

-- `WorkerSubmission`; `available_count` is there if it is a number that is not negative.
pub record Submission : Type 0 where
  pub intent : Intent
  pub run_id : String
  pub run_status : RunEnd
  pub observed_job_ids : List ℕ
  pub completion_reason : String
  pub available_count : Option ℕ
  pub count_evidence : String
  pub collected_count : ℕ

pub record Batch : Type 0 where
  pub submission : Submission
  pub site_name : String

-- `PersistenceReport`, its stored and rejected items as counts. `persisted_ids` are the job ids of
-- the persisted items, those whose id is a text of digits.
pub record PersistenceReport : Type 0 where
  pub persisted_ids : List ℕ
  pub stored_count : ℕ
  pub persisted_count : ℕ
  pub created_count : ℕ
  pub updated_count : ℕ
  pub rejected_count : ℕ

pub data Status : Type 0 where
  completed partial failed : Status

pub data Execution : Type 0 where
  completed failed : Execution

pub data DataStatus : Type 0 where
  available no_match rejected failed : DataStatus

pub data Fulfillment : Type 0 where
  fulfilled partial unfulfilled : Fulfillment

pub record CollectionResult : Type 0 where
  pub status : Status
  pub execution_status : Execution
  pub data_status : DataStatus
  pub fulfillment_status : Fulfillment
  pub completion_reason : String
  pub error_code : String
  pub site : String
  pub site_name : String
  pub search_keyword : String
  pub task_category : String
  pub target_count : ℕ
  pub collected_count : ℕ
  pub resolved_count : ℕ
  pub stored_count : ℕ
  pub persisted_count : ℕ
  pub created_count : ℕ
  pub updated_count : ℕ
  pub rejected_count : ℕ
  pub observed_job_ids : List ℕ
  pub document_ids : List ℕ
  pub scope_exhausted : Bool
  pub worker_finished : Bool
  pub hit_recursion_limit : Bool
  pub worker_run_id : String

-- `InvestigationExecutionState`
pub record ExecutionState : Type 0 where
  pub plan : List PlanStep
  pub executed_step_ids : List String
  pub collection_document_ids : List ℕ
  pub collection_results : List CollectionResult
  pub pending_collection : Option Batch
  pub cannot_proceed_reason : String
  pub replan_attempted : Bool

pub record InvestigationState : Type 0 where
  pub investigation : Investigation
  pub requirements : List Requirement
  pub sufficient : Bool
  pub execution : ExecutionState

abbrev pub no_execution : ExecutionState
no_execution = record {
  plan = [];
  executed_step_ids = [];
  collection_document_ids = [];
  collection_results = [];
  pending_collection = none;
  cannot_proceed_reason = "";
  replan_attempted = false;
}

-- `create_investigation_state`
abbrev pub create_investigation_state : Investigation → InvestigationState
create_investigation_state investigation = record {
  investigation = investigation;
  requirements = [];
  sufficient = false;
  execution = no_execution;
}
