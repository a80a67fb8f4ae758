-- ===== src/Planning/Validate.antt =====
-- agent/graph/investigation_evidence_policy.py: the model's verdict on candidates, confined to the
-- candidates, and the sufficiency computed again. Counts by site are left out.
use l2c.Common.{
  ℕ, ◌-◌, String, Bool, true, false, ◌&&◌, ◌||◌, not, Option, none, some, List, [], ◌∷◌, ◌++◌, map,
  ◌==◌, nat_eq, ltb, length, take, keep, any, all, last?, collect_some, count_if, if◌then◌else◌,
}
use l2c.Common.Text.{Unicode, is_empty, append, strip, take_text}
use l2c.JobCards.Queue.{show_nat}
use l2c.Planning.Contract.{CountMode, explicit, Requirement, member, dedup}

pub record EvidenceCandidate : Type 0 where
  pub document_id : ℕ
  pub present_fields : List String
  pub posted_at : String

-- The report on one requirement.
pub record RequirementReport : Type 0 where
  pub requirement_id : String
  pub description : String
  pub semantic_review_required : Bool
  pub candidates : List EvidenceCandidate
  pub matching_count : ℕ
  pub verified_posted_at_count : ℕ
  pub oldest_posted_at : String
  pub newest_posted_at : String
  pub field_coverage : List (String × ℕ)
  pub document_ids : List ℕ
  pub sufficient : Bool
  pub missing : List String

-- `EvidenceDecision`
pub record EvidenceDecision : Type 0 where
  pub requirement_id : String
  pub matching_document_ids : List ℕ

-- The report on all requirements.
pub record EvidenceReport : Type 0 where
  pub requirements : List RequirementReport
  pub sufficient : Bool
  pub document_ids : List ℕ
  pub missing_evidence : List String

abbrev pub has_id : ℕ → List ℕ → Bool
has_id n ids = any (λ k. nat_eq k n) ids

-- The elements that are not seen yet, each once.
abbrev pub unseen_ids : List ℕ → List ℕ → List ℕ
unseen_ids seen [] = []
unseen_ids seen (n ∷ ns) =
    let again = unseen_ids seen ns in
    let new = n ∷ unseen_ids (n ∷ seen) ns in if has_id n seen then again else new

abbrev pub id_of : EvidenceCandidate → ℕ
id_of c = c.document_id

-- `candidates[id]`: the last candidate with the id.
abbrev pub candidate_by_id : List EvidenceCandidate → ℕ → Option EvidenceCandidate
candidate_by_id candidates n = last? (keep (λ c. nat_eq (id_of c) n) candidates)

unfoldable pub valid_candidate_ids : List ℕ → List EvidenceCandidate → List ℕ
valid_candidate_ids values candidates =
    unseen_ids [] (keep (λ n. has_id n (map id_of candidates)) values)

abbrev pub decided_ids : Option EvidenceDecision → List ℕ
decided_ids none = []
decided_ids (some d) = d.matching_document_ids

abbrev pub limited_to : CountMode → ℕ → List ℕ → List ℕ
limited_to explicit target_count ids = take target_count ids
limited_to _ target_count ids = ids

unfoldable pub selected_ids : RequirementReport → Requirement → Option EvidenceDecision → List ℕ
unfolding valid_candidate_ids
selected_ids item requirement decision =
    let given =
      (if item.semantic_review_required then decided_ids decision else map id_of item.candidates) in
    let matching = valid_candidate_ids given item.candidates in
    limited_to requirement.scope.count_mode requirement.scope.target_count matching

unfoldable pub selected_candidates :
    RequirementReport → Requirement → Option EvidenceDecision → List EvidenceCandidate
unfolding selected_ids
selected_candidates item requirement decision =
    collect_some (candidate_by_id item.candidates) (selected_ids item requirement decision)

unfoldable pub coverage : List EvidenceCandidate → String → ℕ
coverage selected field = count_if (λ c. member field c.present_fields) selected

unfoldable pub posted_dates : Unicode → List EvidenceCandidate → List String
posted_dates u selected =
    map (λ (c : EvidenceCandidate). take_text 10 c.posted_at)
      (keep (λ (c : EvidenceCandidate). not (is_empty (strip u c.posted_at))) selected)

abbrev pub is_dated : Requirement → Bool
is_dated r = not (is_empty r.scope.posted_from) || not (is_empty r.scope.posted_to)

abbrev pub one_if : Bool → String → List String
one_if true reason = reason ∷ []
one_if false reason = []

unfoldable pub missing_reasons : Unicode → Requirement → List EvidenceCandidate → List String
unfolding coverage posted_dates append
missing_reasons u r selected =
    one_if (ltb (length selected) r.minimum_count)
      (append "의미 조건을 만족하는 표본 " (append (show_nat (r.minimum_count - length selected)) "건 부족"))
    ++ map (λ field. append field " 근거 부족")
        (keep (λ field. ltb (coverage selected field) r.minimum_count) r.required_fields)
    ++ one_if (is_dated r && ltb (length (posted_dates u selected)) r.minimum_count) "검증된 게시일 근거 부족"

abbrev pub first_or_empty : List String → String
first_or_empty [] = ""
first_or_empty (t ∷ ts) = t

abbrev pub or_empty : Option String → String
or_empty none = ""
or_empty (some t) = t

-- A dictionary of the last requirement, and of the last decision, with each id.
abbrev pub requirement_by_id : List Requirement → String → Option Requirement
requirement_by_id requirements id =
    last? (keep (λ (r : Requirement). r.requirement_id == id) requirements)

abbrev pub decision_by_id : List EvidenceDecision → String → Option EvidenceDecision
decision_by_id decisions id =
    last? (keep (λ (d : EvidenceDecision). d.requirement_id == id) decisions)

abbrev pub all_ids : List RequirementReport → List ℕ
all_ids [] = []
all_ids (item ∷ items) = item.document_ids ++ all_ids items

module _ (u : Unicode) (sort_texts : List String → List String) where
  unfoldable pub validated_requirement_report :
      RequirementReport → Requirement → Option EvidenceDecision → RequirementReport
  unfolding selected_candidates missing_reasons
  validated_requirement_report item r decision =
      let selected = selected_candidates item r decision in
      let dates = sort_texts (posted_dates u selected) in
      let missing = missing_reasons u r selected in
      record item {
        matching_count = length selected;
        verified_posted_at_count = length dates;
        oldest_posted_at = first_or_empty dates;
        newest_posted_at = or_empty (last? dates);
        field_coverage = map (λ field. (field, coverage selected field)) r.required_fields;
        document_ids = selected_ids item r decision;
        candidates = selected;
        sufficient = nat_eq (length missing) 0;
        missing = dedup missing;
      }

  abbrev pub validated_item :
      List EvidenceDecision → RequirementReport → Option Requirement → Option RequirementReport
  validated_item decisions item none = none
  validated_item decisions item (some r) =
      some (validated_requirement_report item r (decision_by_id decisions r.requirement_id))

  unfoldable pub validated_items :
      List Requirement → List EvidenceDecision → List RequirementReport → List RequirementReport
  unfolding validated_requirement_report
  validated_items requirements decisions items =
      collect_some
        (λ (item : RequirementReport).
          validated_item decisions item (requirement_by_id requirements item.requirement_id))
        items

  abbrev pub all_missing : List RequirementReport → List String
  all_missing [] = []
  all_missing (item ∷ items) =
      map (λ reason. append item.description (append ": " reason)) item.missing ++ all_missing items

  unfoldable pub apply_evidence_validation :
      EvidenceReport → List Requirement → List EvidenceDecision → EvidenceReport
  unfolding validated_items
  apply_evidence_validation report requirements decisions =
      let reports = validated_items requirements decisions report.requirements in
      record {
        requirements = reports;
        sufficient =
            not (nat_eq (length reports) 0)
            && all (λ (item : RequirementReport). item.sufficient) reports;
        document_ids = unseen_ids [] (all_ids reports);
        missing_evidence = all_missing reports;
      }
