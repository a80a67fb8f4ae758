-- ===== src/Planning/Sound.antt =====
-- The selected steps: the sites, the evidence and the repetitions among them.
use l2c.Common.{
  ℕ, ◌*◌, ◌≤◌, ◌<◌, String, ◌≡◌, refl, ◌∙◌, true, false, ◌&&◌, ◌||◌, Option, some, List, [], ◌∷◌,
  ◌++◌, map, arith, ◌==◌, eq_iff, ==-refl, leb, nat_eq, length, length-append, subst, max, All,
  All-append, Bool-cases, Option-cases, inl, inr, keep,
}
use mathlib.Core.List.{map-append}
use l2c.Common.Text.{Unicode, is_empty, strip}
use l2c.Planning.Contract.{Intent, Requirement, PlanStep, member, dedup, dedup_from}
use l2c.Planning.Steps.{
  realtime, realtime_sites, requirement_ids, known_evidence, accepted_step, signature, select_from,
  select_collection_steps, step_signature, new_from, new_collection_steps,
}

-- No text of the list stands in it again.
abbrev pub NoRepeats : List String → Type 0
NoRepeats [] = Unit
NoRepeats (x ∷ xs) = (member x xs ≡ false) × NoRepeats xs

pub member-append :
    (x : String) (xs ys : List String) → member x (xs ++ ys) ≡ (member x xs || member x ys)
member-append x [] ys = refl
member-append x (y ∷ xs) ys = ground (arith, member-append x xs ys)

pub NoRepeats-snoc :
    (xs : List String) (x : String) → NoRepeats xs → member x xs ≡ false → NoRepeats (xs ++ x ∷ [])
NoRepeats-snoc [] x h e = (refl, tt)
NoRepeats-snoc (y ∷ xs) x h e =
    ground (arith, NoRepeats-snoc xs x h.1, member-append y xs (x ∷ []), eq_iff x y, eq_iff y x)

-- `y` is a member of both lists or of neither.
abbrev SameMembers : List String → List String → Type 0
SameMembers xs ys = (x : String) → member x xs ≡ member x ys

-- What a selected step satisfies.
pub record IsAllowed (u : Unicode) (sites ids : List String) (step : PlanStep) : Type 0 where
  pub tool : (step.tool_name == realtime) ≡ true
  pub site : member (strip u step.arguments.site) sites ≡ true
  pub named : is_empty (strip u step.arguments.site) ≡ false
  pub keyword : is_empty (strip u step.arguments.search_keyword) ≡ false
  pub grounded : 1 ≤ length step.expected_evidence
  pub known : All (λ item. member item ids ≡ true) step.expected_evidence
  pub once : NoRepeats step.expected_evidence

dedup_from-All {κ} :
    (P : String → Type κ) (seen xs : List String) → All P xs → All P (dedup_from seen xs)
unfolding dedup_from
dedup_from-All P seen [] h = tt
dedup_from-All P seen (x ∷ xs) h = elim (Bool-cases (member x seen)) [
  | inl e ↦ rw e (dedup_from-All P seen xs h.1)
  | inr e ↦ rw e (h.0, dedup_from-All P (x ∷ seen) xs h.1)
]

dedup_from-fresh :
    (y : String) (seen xs : List String)
    → member y seen ≡ true
    → member y (dedup_from seen xs) ≡ false
unfolding dedup_from
dedup_from-fresh y seen [] h = refl
dedup_from-fresh y seen (x ∷ xs) h =
    ground (arith, dedup_from-fresh y seen xs, dedup_from-fresh y (x ∷ seen) xs, eq_iff x y)

dedup_from-NoRepeats : (seen xs : List String) → NoRepeats (dedup_from seen xs)
unfolding dedup_from
dedup_from-NoRepeats seen [] = tt
dedup_from-NoRepeats seen (x ∷ xs) = elim (Bool-cases (member x seen)) [
  | inl e ↦ rw e (dedup_from-NoRepeats seen xs)
  | inr e ↦
      rw e (dedup_from-fresh x (x ∷ seen) xs (rw (==-refl x)), dedup_from-NoRepeats (x ∷ seen) xs)
]

All-keep-member :
    (ids xs : List String)
    → All (λ item. member item ids ≡ true) (keep (λ item. member item ids) xs)
All-keep-member ids [] = tt
All-keep-member ids (x ∷ xs) = elim (Bool-cases (member x ids)) [
  | inl e ↦ rw e (e, All-keep-member ids xs)
  | inr e ↦ rw e (All-keep-member ids xs)
]

nonempty : (xs : List String) → nat_eq (length xs) 0 ≡ false → 1 ≤ length xs
nonempty xs h = ground arith

abbrev normalized_step : List String → PlanStep → PlanStep
normalized_step ids step = record step {
  tool_name = realtime;
  expected_evidence = known_evidence ids step;
}

record Accepted (u : Unicode) (sites ids : List String) (step s : PlanStep) : Type 0 where
  made : normalized_step ids step ≡ s
  site : member (strip u step.arguments.site) sites ≡ true
  named : is_empty (strip u step.arguments.site) ≡ false
  keyword : is_empty (strip u step.arguments.search_keyword) ≡ false
  grounded : nat_eq (length (known_evidence ids step)) 0 ≡ false

accepted_step-Accepted :
    (u : Unicode) (sites ids : List String) (step s : PlanStep)
    → accepted_step u sites ids step ≡ some s
    → Accepted u sites ids step s
unfolding accepted_step
accepted_step-Accepted u sites ids step s h = ground arith

accepted-IsAllowed :
    (u : Unicode) (sites ids : List String) (step s : PlanStep)
    → accepted_step u sites ids step ≡ some s
    → IsAllowed u sites ids s
unfolding dedup
accepted-IsAllowed u sites ids step s h =
    let a = accepted_step-Accepted u sites ids step s h in
    let kept = keep (λ item. member item ids) step.expected_evidence in
    subst (IsAllowed u sites ids) a.made (record {
      tool = ==-refl realtime;
      site = a.site;
      named = a.named;
      keyword = a.keyword;
      grounded = nonempty (known_evidence ids step) a.grounded;
      known =
          dedup_from-All (λ item. member item ids ≡ true) [] kept
            (All-keep-member ids step.expected_evidence);
      once = dedup_from-NoRepeats [] kept;
    })

module _ (dumps : Intent → List String → String) (maximum : ℕ)
    (accept : PlanStep → Option PlanStep) where
  -- The rule of the loop, for what holds of the signatures and the steps collected so far.
  select_from_inv {κ} :
      (P : List String → List PlanStep → Type κ)
      → ((step s : PlanStep) (signatures : List String) (normalized : List PlanStep)
          → accept step ≡ some s
          → member (signature dumps s) signatures ≡ false
          → P signatures normalized
          → P (signature dumps s ∷ signatures) (normalized ++ s ∷ []))
      → (signatures : List String) (normalized steps : List PlanStep) → P signatures normalized
      → (final : List String) × P final
          (select_from dumps maximum accept signatures normalized steps)
  unfolding select_from
  select_from_inv P add signatures normalized [] h = (signatures, h)
  select_from_inv P add signatures normalized (step ∷ steps) h = elim (Option-cases (accept step)) [
    | inl e ↦ rw (select_from, e) (select_from_inv P add signatures normalized steps h)
    | inr (s, e) ↦
        rw (select_from, e)
          (elim (Bool-cases (member (signature dumps s) signatures)) [
            | inl m ↦ rw m (select_from_inv P add signatures normalized steps h)
            | inr m ↦ rw m (elim (Bool-cases (leb maximum (length (normalized ++ s ∷ [])))) [
              | inl full ↦
                  rw full (signature dumps s ∷ signatures, add step s signatures normalized e m h)
              | inr room ↦ rw room (
                  select_from_inv P add (signature dumps s ∷ signatures) (normalized ++ s ∷ [])
                    steps (add step s signatures normalized e m h))
            ])
          ])
  ]

  length-select_from :
      (signatures : List String) (normalized steps : List PlanStep)
      → length normalized < maximum
      → length (select_from dumps maximum accept signatures normalized steps) ≤ maximum
  unfolding select_from
  length-select_from signatures normalized [] h = omega arith
  length-select_from signatures normalized (step ∷ steps) h = elim (Option-cases (accept step)) [
    | inl e ↦ rw (select_from, e) (length-select_from signatures normalized steps h)
    | inr (s, e) ↦
        rw (select_from, e)
          (elim (Bool-cases (member (signature dumps s) signatures)) [
            | inl m ↦ rw m (length-select_from signatures normalized steps h)
            | inr m ↦ rw m (elim (Bool-cases (leb maximum (length (normalized ++ s ∷ [])))) [
              | inl full ↦ rw full (omega (arith, length-append normalized (s ∷ [])))
              | inr room ↦ rw room (
                  length-select_from (signature dumps s ∷ signatures) (normalized ++ s ∷ []) steps
                    (ground (arith, room)))
            ])
          ])
  ]

-- The signatures seen are those of the steps, and no step repeats another.
record Collected (dumps : Intent → List String → String) (u : Unicode) (sites ids : List String)
    (signatures : List String) (normalized : List PlanStep) : Type 0 where
  allowed : All (IsAllowed u sites ids) normalized
  distinct : NoRepeats (map (signature dumps) normalized)
  seen : SameMembers (map (signature dumps) normalized) signatures

Collected-add :
    (dumps : Intent → List String → String) (u : Unicode) (sites ids : List String)
    (step s : PlanStep) (signatures : List String) (normalized : List PlanStep)
    → accepted_step u sites ids step ≡ some s
    → member (signature dumps s) signatures ≡ false
    → Collected dumps u sites ids signatures normalized
    → Collected dumps u sites ids (signature dumps s ∷ signatures) (normalized ++ s ∷ [])
Collected-add dumps u sites ids step s signatures normalized e m c =
    let before = map (signature dumps) normalized in
    let longer = map-append (signature dumps) normalized (s ∷ []) in
    record {
      allowed =
          All-append (IsAllowed u sites ids) normalized (s ∷ []) c.allowed
            (accepted-IsAllowed u sites ids step s e, tt);
      distinct =
          rw longer
            (NoRepeats-snoc before (signature dumps s) c.distinct (c.seen (signature dumps s) ∙ m));
      seen = λ x.
          rw longer (ground (arith, member-append x before (signature dumps s ∷ []), c.seen x));
    }

-- Every step of a selected plan is a realtime collection from a site of the capabilities with a
-- search keyword, and names at least one requirement, each known and none twice; no two steps have
-- the same arguments and evidence (the same signature).
pub select_collection_steps_sound :
    (dumps : Intent → List String → String) (u : Unicode) (steps : List PlanStep)
    (requirements : List Requirement) (capabilities : List String)
    → let plan = select_collection_steps dumps u steps requirements capabilities in
      All (IsAllowed u (realtime_sites capabilities) (requirement_ids requirements)) plan
      × NoRepeats (map (signature dumps) plan)
unfolding select_collection_steps
select_collection_steps_sound dumps u steps requirements capabilities =
    let sites = realtime_sites capabilities in
    let ids = requirement_ids requirements in
    let done =
      select_from_inv dumps (length sites * max 1 (length (dedup ids))) (accepted_step u sites ids)
        (Collected dumps u sites ids) (Collected-add dumps u sites ids) [] [] steps
        (record { allowed = tt; distinct = tt; seen = λ x. refl }) in
    (done.1.allowed, done.1.distinct)

-- If some site can be searched, a selected plan has at most as many steps as there are sites and
-- requirements to combine (the requirements counting as one if there are none).
pub length-select_collection_steps :
    (dumps : Intent → List String → String) (u : Unicode) (steps : List PlanStep)
    (requirements : List Requirement) (capabilities : List String)
    → 1 ≤ length (realtime_sites capabilities)
    → length (select_collection_steps dumps u steps requirements capabilities)
      ≤ length (realtime_sites capabilities) * max 1 (length (dedup (requirement_ids requirements)))
unfolding select_collection_steps
length-select_collection_steps dumps u steps requirements capabilities h =
    let sites = realtime_sites capabilities in
    let ids = requirement_ids requirements in
    length-select_from dumps (length sites * max 1 (length (dedup ids))) (accepted_step u sites ids)
      [] [] steps (grind arith)

abbrev pub step_ids : List PlanStep → List String
step_ids steps = map (λ (s : PlanStep). s.step_id) steps

module _ (dumps : Intent → List String → String) (sort_texts : List String → List String) where
  -- What the loop of `new_collection_steps` accepts repeats neither what was known nor itself.
  new_from-disjoint :
      (ids signatures : List String) (steps : List PlanStep) (x : String)
      → member x ids ≡ true
      → member x (step_ids (new_from dumps sort_texts ids signatures steps)) ≡ false
  unfolding new_from
  new_from-disjoint ids signatures [] x h = refl
  new_from-disjoint ids signatures (step ∷ steps) x h = ground (
    arith,
    new_from-disjoint ids signatures steps x h,
    new_from-disjoint (step.step_id ∷ ids) (step_signature dumps sort_texts step ∷ signatures) steps
        x,
    eq_iff step.step_id x,
  )

  new_from-NoRepeats :
      (ids signatures : List String) (steps : List PlanStep)
      → NoRepeats (step_ids (new_from dumps sort_texts ids signatures steps))
  unfolding new_from
  new_from-NoRepeats ids signatures [] = tt
  new_from-NoRepeats ids signatures (step ∷ steps) =
      elim (Bool-cases
        (member step.step_id ids || member (step_signature dumps sort_texts step) signatures)) [
          | inl e ↦ rw e (new_from-NoRepeats ids signatures steps)
          | inr e ↦ rw e (
            new_from-disjoint (step.step_id ∷ ids)
                (step_signature dumps sort_texts step ∷ signatures) steps step.step_id
                (rw (==-refl step.step_id)),
            new_from-NoRepeats (step.step_id ∷ ids)
                (step_signature dumps sort_texts step ∷ signatures) steps,
          )
        ]

-- The steps that replanning appends have numbers that neither the existing plan nor another of them
-- has.
pub new_collection_steps-fresh :
    (dumps : Intent → List String → String) (sort_texts : List String → List String)
    (existing proposed : List PlanStep) (x : String)
    → let added = step_ids (new_collection_steps dumps sort_texts existing proposed) in
      NoRepeats added × ((member x (step_ids existing) && member x added) ≡ false)
unfolding new_collection_steps
new_collection_steps-fresh dumps sort_texts existing proposed x =
    let ids = step_ids existing in
    let signatures = map (step_signature dumps sort_texts) existing in
    (
      new_from-NoRepeats dumps sort_texts ids signatures proposed,
      ground (arith, new_from-disjoint dumps sort_texts ids signatures proposed x),
    )
