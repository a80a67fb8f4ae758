-- ===== src/Planning/Contract.antt =====
-- The contracts that planning passes around: shared/schema/collection_intent.py and the parts of
-- shared/schema/investigation_schema.py that the plan's policy reads.
use l2c.Common.{ℕ, String, Bool, List, [], ◌∷◌, ◌==◌, leb, any, if◌then◌else◌}

pub data CountMode : Type 0 where
  unspecified explicit visible_all : CountMode

pub record Filters : Type 0 where
  pub posted_from : String
  pub posted_to : String
  pub experience : String
  pub location : String
  pub employment_type : String

-- `CollectionIntent`
pub record Intent : Type 0 where
  pub original_query : String
  pub site : String
  pub search_keyword : String
  pub count_mode : CountMode
  pub target_count : ℕ
  pub filters : Filters
  pub freshness_required : Bool
  pub purpose : String
  pub task_category : String
  pub required_fields : List String

abbrev pub only_explicit : CountMode → CountMode
only_explicit unspecified = visible_all
only_explicit explicit = visible_all
only_explicit visible_all = visible_all

-- `align_count_mode`, which runs when an intent is built.
unfoldable pub align_count_mode : Intent → Intent
align_count_mode intent =
    if leb 1 intent.target_count
    then record intent { count_mode = explicit }
    else record intent { count_mode = only_explicit intent.count_mode }

-- The parts of `InvestigationConstraints` that planning reads.
pub record Scope : Type 0 where
  pub sites : List String
  pub collection_search_term : String
  pub count_mode : CountMode
  pub target_count : ℕ
  pub posted_from : String
  pub posted_to : String
  pub experience : String
  pub location : String
  pub employment_type : String

-- `EvidenceRequirement`
pub record Requirement : Type 0 where
  pub requirement_id : String
  pub description : String
  pub scope : Scope
  pub required_fields : List String
  pub minimum_count : ℕ
  pub reason : String

-- `InvestigationPlanStep`
pub record PlanStep : Type 0 where
  pub step_id : String
  pub tool_name : String
  pub arguments : Intent
  pub purpose : String
  pub expected_evidence : List String

pub data EvidencePolicy : Type 0 where
  model_knowledge database_first web_required database_only : EvidencePolicy

-- `InvestigationRequest`
pub record Investigation : Type 0 where
  pub original_query : String
  pub purpose : String
  pub evidence_policy : EvidencePolicy
  pub constraints : Scope
  pub clarification_questions : List String

-- `x in xs`
abbrev pub member : String → List String → Bool
member x xs = any (λ y. y == x) xs

-- `list(dict.fromkeys(xs))`: each element once, at its first place. `seen` holds those before.
unfoldable pub dedup_from : List String → List String → List String
dedup_from seen [] = []
dedup_from seen (x ∷ xs) =
    let again = dedup_from seen xs in
    let first = x ∷ dedup_from (x ∷ seen) xs in if member x seen then again else first

unfoldable pub dedup : List String → List String
unfolding dedup_from
dedup xs = dedup_from [] xs
