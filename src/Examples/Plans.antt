-- ===== src/Examples/Plans.antt =====
-- A plan of one collection for one requirement on one site.
use l2c.Common.{
  String, ◌≡◌, false, ◌&&◌, List, [], ◌∷◌, map, length, All, ℕ, true, not, some, ltb, refl,
}
use l2c.Planning.Contract.{
  explicit, Intent, Scope, Requirement, PlanStep, database_first, Investigation, member,
}
use l2c.Planning.Steps.{
  realtime, realtime_sites, signature, select_collection_steps, new_collection_steps,
}
use l2c.Planning.Sound.{
  NoRepeats, IsAllowed, step_ids, select_collection_steps_sound, new_collection_steps-fresh,
}
use l2c.Planning.Validate.{
  EvidenceCandidate, RequirementReport, EvidenceReport, EvidenceDecision, selected_candidates,
  is_dated, posted_dates, validated_requirement_report, apply_evidence_validation,
}
use l2c.Planning.Validated.{
  DistinctIds, is_offered, apply_evidence_validation-grounded,
  validated_requirement_report-sufficient,
}
use l2c.Examples.{ascii}

abbrev pub intent : Intent
intent = record {
  original_query = "backend jobs";
  site = "wanted";
  search_keyword = "backend";
  count_mode = explicit;
  target_count = 3;
  filters = record {
    posted_from = "";
    posted_to = "";
    experience = "";
    location = "";
    employment_type = "";
  };
  freshness_required = false;
  purpose = "";
  task_category = "search";
  required_fields = [];
}

abbrev pub scope : Scope
scope = record {
  sites = "wanted" ∷ [];
  collection_search_term = "backend";
  count_mode = explicit;
  target_count = 3;
  posted_from = "";
  posted_to = "";
  experience = "";
  location = "";
  employment_type = "";
}

abbrev pub requirement : Requirement
requirement = record {
  requirement_id = "r1";
  description = "three jobs";
  scope = scope;
  required_fields = [];
  minimum_count = 3;
  reason = "";
}

abbrev pub plan_step : PlanStep
plan_step = record {
  step_id = "s1";
  tool_name = realtime;
  arguments = intent;
  purpose = "";
  expected_evidence = "r1" ∷ [];
}

abbrev pub capabilities : List String
capabilities = "realtime_scraping:wanted" ∷ []

abbrev pub investigation : Investigation
investigation = record {
  original_query = "backend jobs";
  purpose = "";
  evidence_policy = database_first;
  constraints = scope;
  clarification_questions = [];
}

-- An encoding for the example: the site of the collection.
abbrev pub dumps : Intent → List String → String
dumps i evidence = i.site

abbrev pub sort_texts : List String → List String
sort_texts texts = texts

select_collection_steps_sound_example :
    All (IsAllowed ascii (realtime_sites capabilities) ("r1" ∷ [])) (
      select_collection_steps dumps ascii
        (plan_step ∷ plan_step ∷ [])
        (requirement ∷ [])
        capabilities)
    × NoRepeats (
        map (signature dumps) (
          select_collection_steps dumps ascii
            (plan_step ∷ plan_step ∷ [])
            (requirement ∷ [])
            capabilities))
select_collection_steps_sound_example =
    select_collection_steps_sound dumps ascii (plan_step ∷ plan_step ∷ []) (requirement ∷ [])
      capabilities

new_collection_steps-fresh_example :
    NoRepeats (step_ids (new_collection_steps dumps sort_texts (plan_step ∷ []) (plan_step ∷ [])))
    × ((member "s1" ("s1" ∷ [])
          && member "s1"
              (step_ids (new_collection_steps dumps sort_texts (plan_step ∷ []) (plan_step ∷ []))))
        ≡ false)
new_collection_steps-fresh_example =
    new_collection_steps-fresh dumps sort_texts (plan_step ∷ []) (plan_step ∷ []) "s1"

-- Two candidates, one of them listed twice; the model also names a document that is none.
abbrev candidate : ℕ → EvidenceCandidate
candidate n = record { document_id = n; present_fields = "skills" ∷ []; posted_at = "2026-01-02" }

abbrev offered : RequirementReport
offered = record {
  requirement_id = "r1";
  description = "three jobs";
  semantic_review_required = true;
  candidates = candidate 5 ∷ candidate 7 ∷ candidate 5 ∷ [];
  matching_count = 0;
  verified_posted_at_count = 0;
  oldest_posted_at = "";
  newest_posted_at = "";
  field_coverage = [];
  document_ids = [];
  sufficient = false;
  missing = [];
}

abbrev report : EvidenceReport
report = record {
  requirements = offered ∷ [];
  sufficient = false;
  document_ids = [];
  missing_evidence = [];
}

abbrev verdict : EvidenceDecision
verdict = record { requirement_id = "r1"; matching_document_ids = 7 ∷ 9 ∷ 5 ∷ 7 ∷ [] }

abbrev validated : EvidenceReport
validated =
    apply_evidence_validation ascii (λ texts. texts) report (requirement ∷ []) (verdict ∷ [])

validated_ids : validated.document_ids ≡ 7 ∷ 5 ∷ []
unfolding apply_evidence_validation
validated_ids = refl

apply_evidence_validation-grounded_example :
    (is_offered 7 (offered ∷ []) ≡ true) × DistinctIds validated.document_ids
unfolding apply_evidence_validation
apply_evidence_validation-grounded_example =
    apply_evidence_validation-grounded ascii (λ texts. texts) report (requirement ∷ [])
      (verdict ∷ []) 7 refl

validated_requirement_report-sufficient_example :
    let selected = selected_candidates offered requirement (some verdict) in
    (validated_requirement_report ascii
      (λ texts. texts)
      offered
      requirement
      (some verdict)).sufficient
    ≡ (not (ltb (length selected) 3)
        && true
        && not (is_dated requirement && ltb (length (posted_dates ascii selected)) 3))
validated_requirement_report-sufficient_example =
    validated_requirement_report-sufficient ascii (λ texts. texts) offered requirement
      (some verdict)
