-- ===== src/Selection/Rules.antt =====
-- agent/recipe/replay.py: which of the stored rules applies to a screen, and why the others do not.
-- The traces that are only shown, and the ratios of targets, are left out.
use l2c.Common.{
  ℕ, String, Bool, ◌&&◌, not, Option, none, some, List, [], ◌∷◌, ◌++◌, ◌==◌, nat_eq, get_elem?, any,
  is_some, if◌then◌else◌,
}
use l2c.Common.Text.{is_empty}
use l2c.Site.{normalize_page_role}
use l2c.Worker.State.{Marker, Args, ReplaySession}
use l2c.Worker.Replay.{holds}
use l2c.Selection.Stored.{
  RuleAction, RuleStep, Rule, ReplayContext, ReflexCandidate, session_key, input_value,
}
use l2c.Selection.Log.{RejectionLog, no_rejections, reject, add_rejected, reject_candidate}
use l2c.Selection.Binding.{TargetBindings, bind_saved_targets, target_of, resolved_param, tool_args}

-- `bool(_missing_inputs(rule, inputs))`
unfoldable pub misses_inputs : ReplayContext → Rule → Bool
misses_inputs c rule = any (λ name. is_empty (input_value c name)) rule.inputs

abbrev pub session_step : String → Option ReplaySession → ℕ
session_step key none = 0
session_step key (some session) =
    if key == session.recipe_key then session.current_step_index else 0

-- The reason that rules a candidate out at once, or its step.
pub data Eligibility : Type 0 where
  ruled_out : String → Eligibility
  eligible : ReflexCandidate → Eligibility

abbrev pub at_step : String → ℕ → Option RuleStep → Eligibility
at_step key index none = ruled_out "rule_step_out_of_range"
at_step key index (some step) =
    eligible (record { rule_key = key; step = step; step_index = index })

unfoldable pub eligibility : ReplayContext → String → Rule → Eligibility
unfolding misses_inputs
eligibility c key rule =
    let index = session_step key c.replay_session in
    if holds key c.blocked_rule_keys
    then ruled_out "rule_blocked_after_effect_failure"
    else if is_empty (session_key c.replay_session) && holds key c.used_rule_keys
    then ruled_out "rule_already_used_on_page"
    else if misses_inputs c rule
    then ruled_out "missing_required_inputs"
    else at_step key index (get_elem? rule.steps index)

abbrev pub listed :
    String → Eligibility → List ReflexCandidate × RejectionLog → List ReflexCandidate × RejectionLog
listed key (ruled_out reason) (cs, log) = (cs, reject_candidate key reason log)
listed key (eligible candidate) (cs, log) = (cs ++ candidate ∷ [], log)

abbrev pub eligible_from :
    ReplayContext
    → List (String × Rule)
    → List ReflexCandidate × RejectionLog
    → List ReflexCandidate × RejectionLog
eligible_from c [] found = found
eligible_from c ((key, rule) ∷ rules) found =
    eligible_from c rules (listed key (eligibility c key rule) found)

unfoldable pub eligible_candidates :
    ReplayContext → RejectionLog → List ReflexCandidate × RejectionLog
unfolding eligibility reject_candidate
eligible_candidates c log = eligible_from c c.rule_candidates ([], log)

unfoldable pub screen_precondition_reason : ReplayContext → RuleStep → String
screen_precondition_reason c step =
    let expected = normalize_page_role c.unicode step.before_page_role in
    if not (c.url_scope_matches step.before_url_template c.current_url)
    then "url_scope_mismatch"
    else if not (is_empty expected)
        && not (is_empty c.current_page_role)
        && not (c.current_page_role == expected)
    then "page_role_mismatch"
    else ""

-- `ReflexSelection`
pub record ReflexSelection : Type 0 where
  pub candidate : ReflexCandidate
  pub calls : List (String × Args)
  pub markers : List Marker

abbrev pub and_call :
    String → Option Args → Option (List (String × Args)) → Option (List (String × Args))
and_call name none rest = none
and_call name (some args) none = none
and_call name (some args) (some calls) = some ((name, args) ∷ calls)

abbrev pub calls_of :
    ReplayContext → List (ℕ × Marker) → List RuleAction → Option (List (String × Args))
calls_of c by_action [] = some []
calls_of c by_action (a ∷ actions) =
    and_call a.action (tool_args a (resolved_param c a) (target_of a.source_seq by_action))
      (calls_of c by_action actions)

abbrev pub selection_with :
    ReflexCandidate → List Marker → Option (List (String × Args)) → Option ReflexSelection
selection_with candidate markers none = none
selection_with candidate markers (some calls) =
    some (record { candidate = candidate; calls = calls; markers = markers })

unfoldable pub selection : ReplayContext → ReflexCandidate → TargetBindings → Option ReflexSelection
unfolding tool_args
selection c candidate b =
    selection_with candidate b.markers (calls_of c b.by_action candidate.step.actions)

unfoldable pub bind_candidate :
    ReplayContext → ReflexCandidate → RejectionLog → Option ReflexSelection × RejectionLog
unfolding screen_precondition_reason bind_saved_targets selection reject
bind_candidate c candidate log =
    let reason = screen_precondition_reason c candidate.step in
    let b = bind_saved_targets c candidate in
    if not (is_empty reason)
    then (none, reject candidate.rule_key reason log)
    else if not (is_empty b.blocked_reason)
    then (none, reject candidate.rule_key b.blocked_reason log)
    else if nat_eq b.verified_target_count 0
    then (none, reject candidate.rule_key "target_unresolved" log)
    else (selection c candidate b, log)

abbrev pub select_from :
    ReplayContext → List ReflexCandidate → RejectionLog → Option ReflexSelection × RejectionLog
select_from c [] log = (none, log)
select_from c (candidate ∷ candidates) log =
    let found = bind_candidate c candidate log in
    let rest = select_from c candidates (add_rejected found.1) in
    if is_some found.0 then found else rest

unfoldable pub select_reflex_replay : ReplayContext → Option ReflexSelection × RejectionLog
unfolding eligible_candidates bind_candidate
select_reflex_replay c =
    let (candidates, log) = eligible_candidates c no_rejections in select_from c candidates log
