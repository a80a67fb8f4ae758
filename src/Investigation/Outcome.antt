-- ===== src/Investigation/Outcome.antt =====
-- investigation_collection_nodes.py: how a collection's numbers become its result.
use l2c.Common.{
  ℕ, String, Bool, true, false, ◌&&◌, ◌||◌, not, Option, none, some, List, [], ◌∷◌, ◌++◌, ◌==◌, ltb,
  leb, nat_eq, length, keep, if◌then◌else◌,
}
use l2c.Common.Text.{Unicode, is_empty, strip}
use l2c.Planning.Contract.{Intent}
use l2c.Investigation.State.{
  RunEnd, finished, recursion_limit, Submission, Batch, PersistenceReport, Status, Execution,
  DataStatus, available, no_match, Fulfillment, fulfilled, unfulfilled, CollectionResult,
}

abbrev pub reaches : Option ℕ → ℕ → Bool
reaches none resolved = false
reaches (some count) resolved = leb count resolved

unfoldable pub scope_exhausted : Unicode → Submission → ℕ → Bool
scope_exhausted u s resolved =
    s.completion_reason == "scope_exhausted"
    || (not (is_empty (strip u s.count_evidence)) && reaches s.available_count resolved)

pub record Outcomes : Type 0 where
  pub status : Status
  pub execution : Execution
  pub data_status : DataStatus
  pub fulfillment : Fulfillment

abbrev pub execution_of : Bool → String → Execution
execution_of worker_finished reason =
    if worker_finished && not (reason == "reasoning_limit" || reason == "screen_unavailable")
    then Execution.completed
    else Execution.failed

abbrev pub data_of : ℕ → ℕ → Bool → DataStatus
data_of resolved rejected_count exhausted =
    if leb 1 resolved
    then available
    else if leb 1 rejected_count
    then DataStatus.rejected
    else if exhausted
    then no_match
    else DataStatus.failed

abbrev pub fulfillment_of : ℕ → ℕ → Bool → Fulfillment
fulfillment_of resolved target exhausted =
    if leb 1 target
    then (if leb target resolved
        then fulfilled
        else if leb 1 resolved
        then Fulfillment.partial
        else unfulfilled)
    else if leb 1 resolved || exhausted
    then fulfilled
    else unfulfilled

abbrev pub is_fulfilled : Fulfillment → Bool
is_fulfilled fulfilled = true
is_fulfilled _ = false

abbrev pub is_no_match : DataStatus → Bool
is_no_match no_match = true
is_no_match _ = false

abbrev pub status_of : Execution → DataStatus → Fulfillment → Status
status_of Execution.failed d f = Status.failed
status_of Execution.completed d f =
    if is_fulfilled f || is_no_match d then Status.completed else Status.partial

unfoldable pub collection_outcomes : ℕ → ℕ → ℕ → Bool → Bool → String → Outcomes
collection_outcomes resolved target rejected_count worker_finished exhausted reason =
    let execution = execution_of worker_finished reason in
    let data_status = data_of resolved rejected_count exhausted in
    let fulfillment = fulfillment_of resolved target exhausted in
    record {
      status = status_of execution data_status fulfillment;
      execution = execution;
      data_status = data_status;
      fulfillment = fulfillment;
    }

-- `sorted(set(ids))`, by insertion.
unfoldable pub insert_id : ℕ → List ℕ → List ℕ
insert_id n [] = n ∷ []
insert_id n (m ∷ ms) =
    let rest = insert_id n ms in
    if ltb n m then n ∷ m ∷ ms else if nat_eq n m then m ∷ ms else m ∷ rest

unfoldable pub sorted_ids : List ℕ → List ℕ
unfolding insert_id
sorted_ids [] = []
sorted_ids (n ∷ ns) = insert_id n (sorted_ids ns)

abbrev pub is_finished : RunEnd → Bool
is_finished finished = true
is_finished _ = false

abbrev pub is_recursion_limit : RunEnd → Bool
is_recursion_limit recursion_limit = true
is_recursion_limit _ = false

abbrev pub observed_ids : Batch → List ℕ
observed_ids batch = keep (λ n. leb 1 n) batch.submission.observed_job_ids

abbrev pub document_ids_of : Batch → PersistenceReport → List ℕ
document_ids_of batch report = sorted_ids (report.persisted_ids ++ observed_ids batch)

unfoldable pub build_collection_result : Unicode → Batch → PersistenceReport → CollectionResult
unfolding sorted_ids scope_exhausted collection_outcomes
build_collection_result u batch report =
    let submission = batch.submission in
    let intent = submission.intent in
    let document_ids = document_ids_of batch report in
    let resolved = length document_ids in
    let exhausted = scope_exhausted u submission resolved in
    let o =
      collection_outcomes resolved intent.target_count report.rejected_count
        (is_finished submission.run_status) exhausted submission.completion_reason in
    record {
      status = o.status;
      execution_status = o.execution;
      data_status = o.data_status;
      fulfillment_status = o.fulfillment;
      completion_reason = submission.completion_reason;
      error_code = "";
      site = intent.site;
      site_name = batch.site_name;
      search_keyword = intent.search_keyword;
      task_category = intent.task_category;
      target_count = intent.target_count;
      collected_count = submission.collected_count;
      resolved_count = resolved;
      stored_count = report.stored_count;
      persisted_count = report.persisted_count;
      created_count = report.created_count;
      updated_count = report.updated_count;
      rejected_count = report.rejected_count;
      observed_job_ids = sorted_ids (observed_ids batch);
      document_ids = document_ids;
      scope_exhausted = exhausted;
      worker_finished = is_finished submission.run_status;
      hit_recursion_limit = is_recursion_limit submission.run_status;
      worker_run_id = submission.run_id;
    }

unfoldable pub failed_result : Intent → String → CollectionResult
failed_result intent error_code = record {
  status = Status.failed;
  execution_status = Execution.failed;
  data_status = DataStatus.failed;
  fulfillment_status = unfulfilled;
  completion_reason = "";
  error_code = error_code;
  site = intent.site;
  site_name = "";
  search_keyword = intent.search_keyword;
  task_category = intent.task_category;
  target_count = intent.target_count;
  collected_count = 0;
  resolved_count = 0;
  stored_count = 0;
  persisted_count = 0;
  created_count = 0;
  updated_count = 0;
  rejected_count = 0;
  observed_job_ids = [];
  document_ids = [];
  scope_exhausted = false;
  worker_finished = false;
  hit_recursion_limit = false;
  worker_run_id = "";
}
