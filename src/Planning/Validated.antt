-- ===== src/Planning/Validated.antt =====
-- What the validation of evidence guarantees, whatever the model answers.
use l2c.Common.{
  ℕ, zero, suc, String, ◌≡◌, refl, Bool, true, false, ◌&&◌, ◌||◌, not, Option, none, some, List, [],
  ◌∷◌, ◌++◌, map, nat_eq, ltb, length, take, keep, any, all, if_elim, if◌then◌else◌, or_skip, arith,
  nat_eq_iff, sym, subst, Bool-cases, inl, inr,
}
use l2c.Common.Text.{Unicode, append}
use l2c.Planning.Contract.{CountMode, unspecified, explicit, visible_all, Requirement}
use l2c.Planning.Validate.{
  RequirementReport, EvidenceDecision, EvidenceReport, has_id, unseen_ids, id_of,
  valid_candidate_ids, decided_ids, limited_to, selected_ids, selected_candidates, coverage,
  posted_dates, is_dated, one_if, missing_reasons, validated_requirement_report, requirement_by_id,
  decision_by_id, validated_item, validated_items, all_ids, apply_evidence_validation,
}

abbrev pub DistinctIds : List ℕ → Type 0
DistinctIds [] = Unit
DistinctIds (n ∷ ns) = (has_id n ns ≡ false) × DistinctIds ns

unseen_ids-skips :
    (n : ℕ) (seen ns : List ℕ) → has_id n seen ≡ true → has_id n (unseen_ids seen ns) ≡ false
unseen_ids-skips n seen [] h = refl
unseen_ids-skips n seen (k ∷ ns) h = elim (Bool-cases (has_id k seen)) [
  | inl again ↦ rw again (unseen_ids-skips n seen ns h)
  | inr new ↦ rw new (elim (Bool-cases (nat_eq k n)) [
    | inl same ↦
        let seen_k : has_id k seen ≡ true =
          subst (λ m. has_id m seen ≡ true) (sym ((nat_eq_iff k n).0 same)) h in
        ground arith
    | inr other ↦ ground (arith, unseen_ids-skips n (k ∷ seen) ns (ground arith))
  ])
]

unseen_ids-Distinct : (seen ns : List ℕ) → DistinctIds (unseen_ids seen ns)
unseen_ids-Distinct seen [] = tt
unseen_ids-Distinct seen (n ∷ ns) =
    if_elim DistinctIds (has_id n seen) (unseen_ids seen ns) (n ∷ unseen_ids (n ∷ seen) ns)
      (λ _. unseen_ids-Distinct seen ns)
      (λ _. (unseen_ids-skips n (n ∷ seen) ns (ground arith), unseen_ids-Distinct (n ∷ seen) ns))

unseen_ids-within :
    (n : ℕ) (seen ns : List ℕ) → has_id n (unseen_ids seen ns) ≡ true → has_id n ns ≡ true
unseen_ids-within n seen [] h = h
unseen_ids-within n seen (k ∷ ns) h =
    if_elim (λ ids. has_id n ids ≡ true → has_id n (k ∷ ns) ≡ true) (has_id k seen)
      (unseen_ids seen ns) (k ∷ unseen_ids (k ∷ seen) ns)
      (λ _ found. ground (arith, unseen_ids-within n seen ns found))
      (λ _ found. elim (Bool-cases (nat_eq k n)) [
        | inl same ↦ ground arith
        | inr other ↦ ground (arith, unseen_ids-within n (k ∷ seen) ns (ground arith))
      ])
      h

has_id-take : (n m : ℕ) (ns : List ℕ) → has_id n (take m ns) ≡ true → has_id n ns ≡ true
has_id-take n zero ns h = ground arith
has_id-take n (suc m) [] h = h
has_id-take n (suc m) (k ∷ ns) h = ground (arith, has_id-take n m ns)

has_id-keep : (n : ℕ) (p : ℕ → Bool) (ns : List ℕ) → has_id n (keep p ns) ≡ true → p n ≡ true
has_id-keep n p [] h = ground arith
has_id-keep n p (k ∷ ns) h = elim (Bool-cases (p k)) [
  | inl passes ↦ elim (Bool-cases (nat_eq k n)) [
    | inl same ↦ subst (λ m. p m ≡ true) ((nat_eq_iff k n).0 same) passes
    | inr other ↦ has_id-keep n p ns (ground arith)
  ]
  | inr fails ↦ has_id-keep n p ns (ground arith)
]

has_id-append : (n : ℕ) (xs ys : List ℕ) → has_id n (xs ++ ys) ≡ (has_id n xs || has_id n ys)
has_id-append n [] ys = refl
has_id-append n (x ∷ xs) ys = ground (arith, has_id-append n xs ys)

no_reasons :
    (few undated : Bool) (reason_few reason_undated : String) (text : String → String)
    (lacks : String → Bool) (fields : List String)
    → nat_eq
        (length
          (one_if few reason_few ++ map text (keep lacks fields) ++ one_if undated reason_undated))
        0
      ≡ (not few && all (λ field. not (lacks field)) fields && not undated)
no_reasons true undated a b text lacks fields = ground arith
no_reasons false undated a b text lacks [] = ground arith
no_reasons false undated a b text lacks (field ∷ fields) = elim (Bool-cases (lacks field)) [
  | inl lacking ↦ rw lacking (ground arith)
  | inr covered ↦ rw covered (no_reasons false undated a b text lacks fields)
]

limited_to-within :
    (mode : CountMode) (target n : ℕ) (ns : List ℕ)
    → has_id n (limited_to mode target ns) ≡ true
    → has_id n ns ≡ true
limited_to-within unspecified target n ns h = h
limited_to-within explicit target n ns h = has_id-take n target ns h
limited_to-within visible_all target n ns h = h

selected_ids-within :
    (item : RequirementReport) (r : Requirement) (decision : Option EvidenceDecision) (n : ℕ)
    → has_id n (selected_ids item r decision) ≡ true
    → has_id n (map id_of item.candidates) ≡ true
unfolding selected_ids valid_candidate_ids
selected_ids-within item r decision n h =
    let given =
      (if item.semantic_review_required then decided_ids decision else map id_of item.candidates) in
    let is_candidate : ℕ → Bool = λ k. has_id k (map id_of item.candidates) in
    let matching = unseen_ids [] (keep is_candidate given) in
    has_id-keep n is_candidate given (
      unseen_ids-within n [] (keep is_candidate given)
        (limited_to-within r.scope.count_mode r.scope.target_count n matching h))

-- Whether a document is a candidate of some report.
abbrev pub is_offered : ℕ → List RequirementReport → Bool
is_offered n items = any (λ (item : RequirementReport). has_id n (map id_of item.candidates)) items

module _ (u : Unicode) (sort_texts : List String → List String) where
  item_within :
      (decisions : List EvidenceDecision) (item : RequirementReport) (r : Option Requirement)
      (rest : List RequirementReport) (n : ℕ)
      → has_id n (all_ids (or_skip (validated_item u sort_texts decisions item r) rest)) ≡ true
      → (has_id n (map id_of item.candidates) || has_id n (all_ids rest)) ≡ true
  unfolding validated_requirement_report
  item_within decisions item none rest n h = ground arith
  item_within decisions item (some r) rest n h =
      let decision = decision_by_id decisions r.requirement_id in
      let ids = selected_ids item r decision in
      let split = has_id-append n ids (all_ids rest) in
      elim (Bool-cases (has_id n ids)) [
        | inl chosen ↦ ground (arith, selected_ids-within item r decision n chosen)
        | inr other ↦ ground (arith, split)
      ]

  reports_within :
      (requirements : List Requirement) (decisions : List EvidenceDecision)
      (items : List RequirementReport) (n : ℕ)
      → has_id n (all_ids (validated_items u sort_texts requirements decisions items)) ≡ true
      → is_offered n items ≡ true
  unfolding validated_items
  reports_within requirements decisions [] n h = h
  reports_within requirements decisions (item ∷ items) n h =
      let rest = validated_items u sort_texts requirements decisions items in
      let r = requirement_by_id requirements item.requirement_id in
      let either = item_within decisions item r rest n h in
      elim (Bool-cases (has_id n (all_ids rest))) [
        | inl later ↦ ground (arith, reports_within requirements decisions items n later)
        | inr here ↦ ground (arith, either)
      ]

  -- A validated report names a document only if it is a candidate of one of the reports that were
  -- validated, whatever the model's verdict says, and names no document twice.
  pub apply_evidence_validation-grounded :
      (report : EvidenceReport) (requirements : List Requirement)
      (decisions : List EvidenceDecision) (n : ℕ)
      → has_id n (apply_evidence_validation u sort_texts report requirements decisions).document_ids
        ≡ true
      → (is_offered n report.requirements ≡ true)
        × DistinctIds
            (apply_evidence_validation u sort_texts report requirements decisions).document_ids
  unfolding apply_evidence_validation
  apply_evidence_validation-grounded report requirements decisions n h =
      let ids = all_ids (validated_items u sort_texts requirements decisions report.requirements) in
      (
        reports_within requirements decisions report.requirements n (unseen_ids-within n [] ids h),
        unseen_ids-Distinct [] ids,
      )

  -- A requirement counts as sufficient exactly if neither the selected documents, nor those that
  -- cover a required field, nor, if dates are asked for, those with a date are fewer than the
  -- minimum.
  pub validated_requirement_report-sufficient :
      (item : RequirementReport) (r : Requirement) (decision : Option EvidenceDecision)
      → (let selected = selected_candidates item r decision in
          (validated_requirement_report u sort_texts item r decision).sufficient ≡ (
            not (ltb (length selected) r.minimum_count)
            && all (λ field. not (ltb (coverage selected field) r.minimum_count)) r.required_fields
            && not (is_dated r && ltb (length (posted_dates u selected)) r.minimum_count)))
  unfolding validated_requirement_report missing_reasons
  validated_requirement_report-sufficient item r decision =
      let selected = selected_candidates item r decision in
      no_reasons (ltb (length selected) r.minimum_count)
        (is_dated r && ltb (length (posted_dates u selected)) r.minimum_count) _ _
        (λ field. append field " 근거 부족") (λ field. ltb (coverage selected field) r.minimum_count)
        r.required_fields
