-- ===== src/Examples/Graphs.antt =====
-- An investigation with one planned collection.
use mathlib.Core.WellFounded.{Acc}
use l2c.Common.{ℕ, ◌≤◌, ◌≡◌, ◌≢◌, refl, ◌↔◌, ◌⊎◌, true, false, none, some, [], ◌∷◌, length}
use l2c.Common.Text.{strip, after_char, starts_with}
use l2c.Planning.Contract.{dedup}
use l2c.Planning.Steps.{
  build_single_site_collection_step, realtime_sites, collection_capabilities_for,
}
use l2c.Planning.Sound.{NoRepeats}
use l2c.Investigation.State.{finished, Batch, PersistenceReport, Status, ExecutionState}
use l2c.Investigation.Outcome.{build_collection_result, collection_outcomes}
use l2c.Investigation.Results.{
  IsAscending, elem, build_collection_result-documents, collection_outcomes-completed,
}
use l2c.Investigation.Nodes.{
  Setting, collect, Attempt, broken, route_after_evidence, route_after_plan, route_after_collect,
  plan_actions_node, collect_node, persist_node,
}
use l2c.Investigation.Graph.{
  Config, Next, inspects, plans, collects, after_inspect, after_plan, after_collect, with_execution,
  inspected_state,
}
use l2c.Investigation.Safety.{
  first_look, Reaches, stays, follows, collect_node-has_step, persist_node-has_batch,
}
use l2c.Investigation.Collected.{collected_ids, recorded, collected-once}
use l2c.Investigation.Termination.{investigation_terminates}
use l2c.Examples.{ascii}
use l2c.Examples.Plans.{
  intent, requirement, plan_step, capabilities, investigation, dumps, sort_texts,
}

abbrev setting : Setting
setting = record {
  unicode = ascii;
  capabilities = capabilities;
  dumps = dumps;
  sort_texts = sort_texts;
}

abbrev begun : Config
begun = first_look investigation (requirement ∷ [])

abbrev batch : Batch
batch = record {
  submission = record {
    intent = intent;
    run_id = "w1";
    run_status = finished;
    observed_job_ids = 5 ∷ 0 ∷ [];
    completion_reason = "target_reached";
    available_count = none;
    count_evidence = "";
    collected_count = 2;
  };
  site_name = "Wanted";
}

abbrev report : PersistenceReport
report = record {
  persisted_ids = 9 ∷ 5 ∷ [];
  stored_count = 2;
  persisted_count = 2;
  created_count = 2;
  updated_count = 0;
  rejected_count = 0;
}

investigation_terminates_example : Acc (λ (d c : Config). Next setting c d) begun
investigation_terminates_example = investigation_terminates setting investigation (requirement ∷ [])

build_collection_result-documents_example :
    let result = build_collection_result ascii batch report in
    IsAscending result.document_ids
    × (elem 5 result.document_ids ≡ true)
    × (result.resolved_count ≡ length result.document_ids)
build_collection_result-documents_example = build_collection_result-documents ascii batch report 5

collection_outcomes-completed_example :
    ((collection_outcomes 3 3 0 true false "target_reached").status ≡ Status.completed) ↔ (
      (true ≡ true)
      × (((1 ≤ 3) × (3 ≤ 3))
          ⊎ ((false ≡ true) × (◌≡◌ {A = ℕ} 3 0) × ((◌≡◌ {A = ℕ} 3 0) ⊎ (◌≡◌ {A = ℕ} 0 0)))))
collection_outcomes-completed_example =
    collection_outcomes-completed 3 3 0 true false "target_reached"

-- The first look finds too little, the plan is made, and the worker returns its batch.
abbrev looked : Config
looked = after_inspect setting (inspected_state begun.state false)

abbrev planned_config : Config
planned_config =
    after_plan
      (with_execution looked.state (plan_actions_node setting looked.state (plan_step ∷ []) ""))

abbrev collected_execution : ExecutionState
collected_execution = record planned_config.state.execution { pending_collection = some batch }

abbrev collected_config : Config
collected_config = after_collect setting (with_execution planned_config.state collected_execution)

looked-Reaches : Reaches setting begun looked
looked-Reaches = follows begun looked (stays begun refl) (inspects false refl refl)

planned-Reaches : Reaches setting begun planned_config
unfolding route_after_evidence
planned-Reaches = follows looked planned_config looked-Reaches (plans (plan_step ∷ []) "" refl refl)

planned_config-node : planned_config.node ≡ collect
unfolding route_after_plan plan_actions_node build_single_site_collection_step dedup realtime_sites
    collection_capabilities_for strip after_char starts_with
planned_config-node = refl

collected-Reaches : Reaches setting begun collected_config
unfolding plan_actions_node collect_node build_single_site_collection_step dedup realtime_sites
    collection_capabilities_for strip after_char starts_with
collected-Reaches =
    follows planned_config collected_config planned-Reaches
      (collects (Attempt.returned batch) collected_execution planned_config-node refl refl)

collected-once_example :
    NoRepeats (collected_ids collected-Reaches)
    × (collected_ids collected-Reaches ≡ recorded collected_config)
collected-once_example =
    collected-once setting investigation (requirement ∷ []) collected_config collected-Reaches

collect_node-has_step_example :
    collect_node planned_config.state.execution (Attempt.raised "TimeoutError") ≢ broken
collect_node-has_step_example =
    collect_node-has_step setting investigation (requirement ∷ []) planned_config
      (Attempt.raised "TimeoutError") planned-Reaches planned_config-node

persist_node-has_batch_example :
    persist_node setting collected_config.state.execution (Attempt.returned report) ≢ broken
unfolding route_after_collect
persist_node-has_batch_example =
    persist_node-has_batch setting investigation (requirement ∷ []) collected_config
      (Attempt.returned report) collected-Reaches refl
