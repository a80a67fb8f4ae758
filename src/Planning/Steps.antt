-- ===== src/Planning/Steps.antt =====
-- investigation_evidence_policy.py and `collection_capabilities_for` of investigation_context.py:
-- which proposed steps become the plan. A capability is its `tool_name`. `json.dumps` of a step's
-- arguments and evidence is the parameter `dumps`.
use l2c.Common.{
  ℕ, ◌*◌, String, ◌&&◌, ◌||◌, not, Option, none, some, List, [], ◌∷◌, ◌++◌, map, ◌==◌, leb, nat_eq,
  length, max, keep, if◌then◌else◌,
}
use l2c.Common.Text.{Unicode, is_empty, or_text, append, starts_with, after_char, strip}
use l2c.Planning.Contract.{
  Intent, align_count_mode, Requirement, PlanStep, Investigation, member, dedup,
}

abbrev pub realtime : String
realtime = "realtime_scraping"

abbrev pub realtime_prefix : String
realtime_prefix = "realtime_scraping:"

-- `_realtime_sites`, as a list without repetitions.
unfoldable pub realtime_sites : List String → List String
realtime_sites capabilities =
    dedup (map (after_char b':') (keep (starts_with realtime_prefix) capabilities))

unfoldable pub collection_capabilities_for : Unicode → List String → Investigation → List String
collection_capabilities_for u catalog investigation =
    let sites =
      keep (λ s. not (is_empty s)) (map (λ s. strip u s) investigation.constraints.sites) in
    if nat_eq (length sites) 0
    then catalog
    else keep (λ tool. member (after_char b':' tool) sites) catalog

abbrev pub requirement_ids : List Requirement → List String
requirement_ids requirements = map (λ (r : Requirement). r.requirement_id) requirements

abbrev pub known_evidence : List String → PlanStep → List String
known_evidence ids step = dedup (keep (λ item. member item ids) step.expected_evidence)

-- The step that the loop of `select_collection_steps` accepts, before the test for repetition.
unfoldable pub accepted_step : Unicode → List String → List String → PlanStep → Option PlanStep
accepted_step u sites ids step =
    let site = strip u step.arguments.site in
    let evidence = known_evidence ids step in
    if not (step.tool_name == realtime) && not (starts_with realtime_prefix step.tool_name)
    then none
    else if is_empty site || not (member site sites)
    then none
    else if not (step.tool_name == realtime) && not (step.tool_name == append realtime_prefix site)
    then none
    else if is_empty (strip u step.arguments.search_keyword)
    then none
    else if nat_eq (length evidence) 0
    then none
    else some (record step { tool_name = realtime; expected_evidence = evidence })

module _ (dumps : Intent → List String → String) where
  abbrev pub signature : PlanStep → String
  signature step = dumps step.arguments step.expected_evidence

  -- The loop, with the signatures and the steps collected so far.
  unfoldable pub select_from :
      ℕ → (PlanStep → Option PlanStep) → List String → List PlanStep → List PlanStep → List PlanStep
  select_from maximum accept signatures normalized [] = normalized
  select_from maximum accept signatures normalized (step ∷ steps) =
      let skipped = select_from maximum accept signatures normalized steps in
      elim (accept step) [
        | none ↦ skipped
        | some s ↦
            let longer = normalized ++ s ∷ [] in
            let rest = select_from maximum accept (signature s ∷ signatures) longer steps in
            if member (signature s) signatures
            then skipped
            else if leb maximum (length longer)
            then longer
            else rest
      ]

  unfoldable pub select_collection_steps :
      Unicode → List PlanStep → List Requirement → List String → List PlanStep
  unfolding select_from accepted_step
  select_collection_steps u steps requirements capabilities =
      let sites = realtime_sites capabilities in
      let ids = requirement_ids requirements in
      select_from (length sites * max 1 (length (dedup ids))) (accepted_step u sites ids) [] []
        steps

  -- `sorted(set(step.expected_evidence))`, for an order on texts that the sort is given by.
  module _ (sort_texts : List String → List String) where
    abbrev pub step_signature : PlanStep → String
    step_signature step = dumps step.arguments (sort_texts (dedup step.expected_evidence))

    unfoldable pub new_from : List String → List String → List PlanStep → List PlanStep
    new_from ids signatures [] = []
    new_from ids signatures (step ∷ steps) =
        let skipped = new_from ids signatures steps in
        let taken = step ∷ new_from (step.step_id ∷ ids) (step_signature step ∷ signatures) steps in
        if member step.step_id ids || member (step_signature step) signatures
        then skipped
        else taken

    unfoldable pub new_collection_steps : List PlanStep → List PlanStep → List PlanStep
    unfolding new_from
    new_collection_steps existing proposed =
        new_from (map (λ (s : PlanStep). s.step_id) existing) (map step_signature existing) proposed

abbrev pub requested_sites : Requirement → Investigation → List String
requested_sites requirement investigation = dedup (
    if nat_eq (length requirement.scope.sites) 0
    then investigation.constraints.sites
    else requirement.scope.sites)

abbrev pub candidate_sites : List String → List String → List String
candidate_sites allowed requested =
    if nat_eq (length requested) 0 then allowed else keep (λ site. member site allowed) requested

abbrev pub single_site_intent : Investigation → Requirement → String → String → Intent
single_site_intent investigation requirement site keyword = align_count_mode (record {
  original_query = investigation.original_query;
  site = site;
  search_keyword = keyword;
  count_mode = requirement.scope.count_mode;
  target_count = requirement.scope.target_count;
  filters = record {
    posted_from = requirement.scope.posted_from;
    posted_to = requirement.scope.posted_to;
    experience = requirement.scope.experience;
    location = requirement.scope.location;
    employment_type = requirement.scope.employment_type;
  };
  freshness_required =
      not (is_empty requirement.scope.posted_from)
      || not (is_empty requirement.scope.posted_to)
      || member "posted_at" requirement.required_fields;
  purpose = investigation.purpose;
  task_category = "검색";
  required_fields = dedup requirement.required_fields;
})

abbrev pub single_site_step : Investigation → Requirement → String → String → PlanStep
single_site_step investigation requirement site keyword = record {
  step_id = append "collect:" (append requirement.requirement_id (append ":" site));
  tool_name = realtime;
  arguments = single_site_intent investigation requirement site keyword;
  purpose = or_text requirement.reason requirement.description;
  expected_evidence = requirement.requirement_id ∷ [];
}

abbrev pub step_for_sites : Unicode → Investigation → Requirement → List String → Option PlanStep
step_for_sites u investigation requirement (site ∷ []) =
    let keyword = strip u requirement.scope.collection_search_term in
    if is_empty keyword
    then none
    else some (single_site_step investigation requirement site keyword)
step_for_sites u investigation requirement _ = none

unfoldable pub build_single_site_collection_step :
    Unicode → Investigation → List Requirement → List String → Option PlanStep
build_single_site_collection_step u investigation (requirement ∷ []) capabilities =
    step_for_sites u investigation requirement
      (candidate_sites (realtime_sites capabilities) (requested_sites requirement investigation))
build_single_site_collection_step u investigation _ capabilities = none
