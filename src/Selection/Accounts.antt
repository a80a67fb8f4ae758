-- ===== src/Selection/Accounts.antt =====
-- What the choice among the rules accounts for, and what it may choose.
use l2c.Common.{
  ℕ, suc, ◌+◌, String, ◌≡◌, refl, ap, false, not, Option, none, some, List, [], ◌∷◌, nat_eq, length,
  length-append, is_some, if_elim, if◌then◌else◌, arith,
}
use l2c.Common.Text.{is_empty}
use l2c.Selection.Stored.{Rule, ReplayContext, ReflexCandidate}
use l2c.Selection.Log.{RejectionLog, no_rejections, add_rejected, reject, reject_candidate}
use l2c.Selection.Binding.{bind_saved_targets}
use l2c.Selection.Rules.{
  Eligibility, ruled_out, eligible, eligibility, listed, eligible_from, eligible_candidates,
  screen_precondition_reason, selection, ReflexSelection, bind_candidate, select_from,
  select_reflex_replay,
}

-- How many candidates a state of the search accounts for.
abbrev accounted : List ReflexCandidate × RejectionLog → ℕ
accounted (candidates, log) = length candidates + log.rejected_count

accounted-listed :
    (key : String) (e : Eligibility) (candidates : List ReflexCandidate) (log : RejectionLog)
    → accounted (listed key e (candidates, log)) ≡ suc (length candidates + log.rejected_count)
unfolding reject_candidate reject
accounted-listed key (ruled_out reason) candidates log = omega arith
accounted-listed key (eligible candidate) candidates log =
    omega (arith, length-append candidates (candidate ∷ []))

accounted-eligible_from :
    (c : ReplayContext) (rules : List (String × Rule)) (candidates : List ReflexCandidate)
    (log : RejectionLog)
    → accounted (eligible_from c rules (candidates, log))
      ≡ length rules + (length candidates + log.rejected_count)
accounted-eligible_from c [] candidates log = omega arith
accounted-eligible_from c ((key, rule) ∷ rules) candidates log =
    let next = listed key (eligibility c key rule) (candidates, log) in
    omega (
      arith,
      accounted-eligible_from c rules next.0 next.1,
      accounted-listed key (eligibility c key rule) candidates log,
    )

bind_candidate_count :
    (c : ReplayContext) (candidate : ReflexCandidate) (log : RejectionLog)
    → (bind_candidate c candidate log).1.rejected_count ≡ log.rejected_count
unfolding bind_candidate reject
bind_candidate_count c candidate log =
    let reason = screen_precondition_reason c candidate.step in
    let b = bind_saved_targets c candidate in
    let P : Option ReflexSelection × RejectionLog → Type 0 =
      λ found. found.1.rejected_count ≡ log.rejected_count in
    if_elim P (not (is_empty reason)) (none, reject candidate.rule_key reason log) _ (λ _. refl)
      (λ _.
        if_elim P (not (is_empty b.blocked_reason))
          (none, reject candidate.rule_key b.blocked_reason log)
          (if nat_eq b.verified_target_count 0
            then (none, reject candidate.rule_key "target_unresolved" log)
            else (selection c candidate b, log))
          (λ _. refl)
          (λ _.
            if_elim P (nat_eq b.verified_target_count 0)
              (none, reject candidate.rule_key "target_unresolved" log)
              (selection c candidate b, log) (λ _. refl) (λ _. refl)))

either_count :
    (found rest : Option ReflexSelection × RejectionLog) (n : ℕ)
    → is_some (if is_some found.0 then found else rest).0 ≡ false
    → (is_some rest.0 ≡ false → rest.1.rejected_count ≡ n)
    → (if is_some found.0 then found else rest).1.rejected_count ≡ n
either_count (some selected, log) rest n h k = ground arith
either_count (none, log) rest n h k = k h

select_from_count :
    (c : ReplayContext) (candidates : List ReflexCandidate) (log : RejectionLog)
    → is_some (select_from c candidates log).0 ≡ false
    → (select_from c candidates log).1.rejected_count ≡ length candidates + log.rejected_count
select_from_count c [] log h = omega arith
select_from_count c (candidate ∷ candidates) log h =
    let found = bind_candidate c candidate log in
    let rest = select_from c candidates (add_rejected found.1) in
    either_count found rest (suc (length candidates) + log.rejected_count) h (λ missed. omega (
      arith,
      select_from_count c candidates (add_rejected found.1) missed,
      bind_candidate_count c candidate log,
    ))

-- Where no rule is chosen, every stored rule has been counted as rejected, and none twice.
pub select_reflex_replay-rejected_count :
    (c : ReplayContext)
    → (select_reflex_replay c).0 ≡ none
    → (select_reflex_replay c).1.rejected_count ≡ length c.rule_candidates
unfolding select_reflex_replay eligible_candidates
select_reflex_replay-rejected_count c h =
    let found = eligible_from c c.rule_candidates ([], no_rejections) in
    omega (
      arith,
      select_from_count c found.0 found.1 (ap is_some h),
      accounted-eligible_from c c.rule_candidates [] no_rejections,
    )
