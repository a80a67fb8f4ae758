-- ===== src/Selection/Chosen.antt =====
-- What the rule that the search chooses is: agent/recipe/replay.py.
use l2c.Common.{
  ◌⊎◌, String, Bool, ◌≡◌, refl, true, false, ◌&&◌, ◌||◌, ◌==◌, not, Option, none, some, List, [],
  ◌∷◌, nat_eq, All, All-append, get_elem?, is_some, if_elim, if◌then◌else◌, inl, inr, arith,
}
use l2c.Common.Text.{is_empty}
use l2c.Site.{normalize_page_role}
use l2c.Worker.Replay.{holds}
use l2c.Selection.Stored.{RuleStep, Rule, ReplayContext, session_key, ReflexCandidate}
use l2c.Selection.Log.{RejectionLog, no_rejections, add_rejected, reject}
use l2c.Selection.Binding.{bind_saved_targets}
use l2c.Selection.Rules.{
  session_step, misses_inputs, Eligibility, ruled_out, eligible, at_step, eligibility, listed,
  eligible_from, eligible_candidates, screen_precondition_reason, selection, selection_with,
  ReflexSelection, bind_candidate, select_from, select_reflex_replay,
}
use l2c.Worker.State.{Marker, Args}

-- Whether a rule stands under a key in a list.
abbrev pub IsStored : String → Rule → List (String × Rule) → Type 0
IsStored key rule [] = ⊥
IsStored key rule ((k, r) ∷ rules) = ((k ≡ key) × (r ≡ rule)) ⊎ IsStored key rule rules

abbrev pub AllStored : List (String × Rule) → List (String × Rule) → Type 0
AllStored rules [] = Unit
AllStored rules ((key, rule) ∷ more) = IsStored key rule rules × AllStored rules more

AllStored-later :
    (k : String) (r : Rule) (rules more : List (String × Rule))
    → AllStored rules more
    → AllStored ((k, r) ∷ rules) more
AllStored-later k r rules [] h = tt
AllStored-later k r rules ((key, rule) ∷ more) h = (inr h.0, AllStored-later k r rules more h.1)

self-AllStored : (rules : List (String × Rule)) → AllStored rules rules
self-AllStored [] = tt
self-AllStored ((key, rule) ∷ rules) =
    (inl (refl, refl), AllStored-later key rule rules rules (self-AllStored rules))

-- What makes a candidate one: its rule is stored and not blocked, it has its inputs, and its step is
-- the one that the session, if the rule is in it, has come to.
abbrev pub Stands : ReplayContext → ReflexCandidate → Type 0
Stands c candidate =
    (rule : Rule) × IsStored candidate.rule_key rule c.rule_candidates
    × (holds candidate.rule_key c.blocked_rule_keys ≡ false)
    × (misses_inputs c rule ≡ false)
    × (candidate.step_index ≡ session_step candidate.rule_key c.replay_session)
    × (get_elem? rule.steps candidate.step_index ≡ some candidate.step)

-- Of what rules a candidate out, nothing.
abbrev IfEligible : (ReflexCandidate → Type 0) → Eligibility → Type 0
IfEligible P (ruled_out reason) = Unit
IfEligible P (eligible candidate) = P candidate

at_step-Stands :
    (c : ReplayContext) (key : String) (rule : Rule) (step : Option RuleStep)
    → IsStored key rule c.rule_candidates
    → holds key c.blocked_rule_keys ≡ false
    → misses_inputs c rule ≡ false
    → get_elem? rule.steps (session_step key c.replay_session) ≡ step
    → IfEligible (Stands c) (at_step key (session_step key c.replay_session) step)
at_step-Stands c key rule none known free inputs at = tt
at_step-Stands c key rule (some step) known free inputs at = (rule, known, free, inputs, refl, at)

eligibility-Stands :
    (c : ReplayContext) (key : String) (rule : Rule)
    → IsStored key rule c.rule_candidates
    → IfEligible (Stands c) (eligibility c key rule)
unfolding eligibility
eligibility-Stands c key rule known =
    let index = session_step key c.replay_session in
    let P : Eligibility → Type 0 = IfEligible (Stands c) in
    let blocked = holds key c.blocked_rule_keys in
    let used = is_empty (session_key c.replay_session) && holds key c.used_rule_keys in
    let step = at_step key index (get_elem? rule.steps index) in
    if_elim P blocked (ruled_out "rule_blocked_after_effect_failure") _ (λ _. tt)
      (λ free.
        if_elim P used (ruled_out "rule_already_used_on_page")
          (if misses_inputs c rule then ruled_out "missing_required_inputs" else step) (λ _. tt)
          (λ _.
            if_elim P (misses_inputs c rule) (ruled_out "missing_required_inputs") step (λ _. tt)
              (λ inputs.
                at_step-Stands c key rule (get_elem? rule.steps index) known free inputs refl)))

listed-Stands :
    (c : ReplayContext) (key : String) (e : Eligibility) (candidates : List ReflexCandidate)
    (log : RejectionLog)
    → IfEligible (Stands c) e
    → All (Stands c) candidates
    → All (Stands c) (listed key e (candidates, log)).0
listed-Stands c key (ruled_out reason) candidates log h k = k
listed-Stands c key (eligible candidate) candidates log h k =
    All-append (Stands c) candidates (candidate ∷ []) k (h, tt)

eligible_from-Stands :
    (c : ReplayContext) (rules : List (String × Rule)) (candidates : List ReflexCandidate)
    (log : RejectionLog)
    → AllStored c.rule_candidates rules
    → All (Stands c) candidates
    → All (Stands c) (eligible_from c rules (candidates, log)).0
eligible_from-Stands c [] candidates log known h = h
eligible_from-Stands c ((key, rule) ∷ rules) candidates log known h =
    let e = eligibility c key rule in
    let next = listed key e (candidates, log) in
    eligible_from-Stands c rules next.0 next.1 known.1
      (listed-Stands c key e candidates log (eligibility-Stands c key rule known.0) h)

-- The screen's URL is in the scope of the step, and its role is the one of the step, unless the
-- screen or the step has none.
abbrev pub Starts : ReplayContext → RuleStep → Type 0
Starts c step =
    (c.url_scope_matches step.before_url_template c.current_url ≡ true)
    × ((is_empty (normalize_page_role c.unicode step.before_page_role)
          || is_empty c.current_page_role
          || c.current_page_role == normalize_page_role c.unicode step.before_page_role)
        ≡ true)

clear_reason :
    (within unset unknown same : Bool)
    → is_empty (
        if not within
        then "url_scope_mismatch"
        else if not unset && not unknown && not same
        then "page_role_mismatch"
        else "")
      ≡ true
    → (within ≡ true) × ((unset || unknown || same) ≡ true)
clear_reason false unset unknown same h = absurd (cc)
clear_reason true true unknown same h = (refl, refl)
clear_reason true false true same h = (refl, refl)
clear_reason true false false true h = (refl, refl)
clear_reason true false false false h = absurd (cc)

clear-Starts :
    (c : ReplayContext) (step : RuleStep)
    → is_empty (screen_precondition_reason c step) ≡ true
    → Starts c step
unfolding screen_precondition_reason
clear-Starts c step h =
    let expected = normalize_page_role c.unicode step.before_page_role in
    clear_reason (c.url_scope_matches step.before_url_template c.current_url) (is_empty expected)
      (is_empty c.current_page_role) (c.current_page_role == expected) h

-- Of a choice: its candidate stands, and its step starts on this screen.
abbrev pub IfChosen : ReplayContext → Option ReflexSelection → Type 0
IfChosen c none = Unit
IfChosen c (some s) = Stands c s.candidate × Starts c s.candidate.step

selection_with-IfChosen :
    (c : ReplayContext) (candidate : ReflexCandidate) (markers : List Marker)
    (calls : Option (List (String × Args)))
    → Stands c candidate
    → Starts c candidate.step
    → IfChosen c (selection_with candidate markers calls)
selection_with-IfChosen c candidate markers none h k = tt
selection_with-IfChosen c candidate markers (some calls) h k = (h, k)

bind_candidate-IfChosen :
    (c : ReplayContext) (candidate : ReflexCandidate) (log : RejectionLog)
    → Stands c candidate
    → IfChosen c (bind_candidate c candidate log).0
unfolding bind_candidate selection
bind_candidate-IfChosen c candidate log h =
    let reason = screen_precondition_reason c candidate.step in
    let b = bind_saved_targets c candidate in
    let P : Option ReflexSelection × RejectionLog → Type 0 = λ found. IfChosen c found.0 in
    let chosen : Option ReflexSelection × RejectionLog = (selection c candidate b, log) in
    let unresolved = reject candidate.rule_key "target_unresolved" log in
    if_elim P (not (is_empty reason)) (none, reject candidate.rule_key reason log) _ (λ _. tt)
      (λ clear.
        if_elim P (not (is_empty b.blocked_reason))
          (none, reject candidate.rule_key b.blocked_reason log)
          (if nat_eq b.verified_target_count 0 then (none, unresolved) else chosen) (λ _. tt)
          (λ _.
            if_elim P (nat_eq b.verified_target_count 0) (none, unresolved) chosen (λ _. tt)
              (λ _.
                selection_with-IfChosen c candidate b.markers _ h
                  (clear-Starts c candidate.step (ground (arith, clear))))))

select_from-IfChosen :
    (c : ReplayContext) (candidates : List ReflexCandidate) (log : RejectionLog)
    → All (Stands c) candidates
    → IfChosen c (select_from c candidates log).0
select_from-IfChosen c [] log h = tt
select_from-IfChosen c (candidate ∷ candidates) log h =
    let found = bind_candidate c candidate log in
    let P : Option ReflexSelection × RejectionLog → Type 0 = λ found. IfChosen c found.0 in
    if_elim P (is_some found.0) found (select_from c candidates (add_rejected found.1))
      (λ _. bind_candidate-IfChosen c candidate log h.0)
      (λ _. select_from-IfChosen c candidates (add_rejected found.1) h.1)

-- A rule is replayed only if it is stored and not blocked, has its inputs, and is at the step that
-- the session, if the rule is in it, has come to; the screen's URL is in the scope of that step,
-- and the screen has the step's page role, unless the step asks for none or the screen's is
-- unknown.
pub select_reflex_replay-IfChosen : (c : ReplayContext) → IfChosen c (select_reflex_replay c).0
unfolding select_reflex_replay eligible_candidates
select_reflex_replay-IfChosen c =
    let found = eligible_from c c.rule_candidates ([], no_rejections) in
    select_from-IfChosen c found.0 found.1 (
      eligible_from-Stands c c.rule_candidates [] no_rejections (self-AllStored c.rule_candidates)
        tt)
