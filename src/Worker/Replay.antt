-- ===== src/Worker/Replay.antt =====
-- The replay of a rule: the position in it (shared/schema/experience_rule_schema.py
-- `ReplaySession`), and what agent/recipe/replay_runtime.py verifies and records.
use l2c.Common.{
  ℕ, ◌+◌, ◌*◌, String, Bool, true, false, not, ◌&&◌, ◌||◌, Option, none, some, List, [], ◌∷◌, ◌++◌,
  ◌==◌, leb, nat_eq, keep, any, if◌then◌else◌,
}
use l2c.Common.Text.{Unicode, is_empty, or_text}
use l2c.Site.{normalize_page_role}
use l2c.Worker.State.{
  Ratio, EffectKind, url_change, page_change, target_region_change, ExpectedEffect, MatchTrace,
  no_trace, current_url_trace, role_mismatch, url_pair, role_pair, frame_error, frame_ratio,
  TransitionRequest, TransitionStatus, ready, ReplaySession, WorkerState,
}

-- What the verification asks of the rest of the program: the URL scopes of agent/utils/text.py and
-- the frame comparison of agent/vision/frame_compare.py with the configured minimum.
pub record Frames : Type 0 where
  pub unicode : Unicode
  pub url_scope_matches : String → String → Bool
  pub effect_ratio : TransitionRequest → String → ExpectedEffect → Option Ratio
  pub minimum : Ratio

abbrev pub opt_eq : Option ℕ → ℕ → Bool
opt_eq none n = false
opt_eq (some m) n = nat_eq m n

unfoldable pub pending_is_current : ReplaySession → Bool
pending_is_current r = opt_eq r.pending_step_index r.current_step_index

unfoldable pub is_last_step : ReplaySession → Bool
is_last_step r = leb r.step_count (r.current_step_index + 1)

unfoldable pub advance : ReplaySession → Option ReplaySession
unfolding pending_is_current is_last_step
advance r =
    if not (pending_is_current r) || is_last_step r
    then none
    else some
        (record r { current_step_index = r.current_step_index + 1; pending_step_index = none })

abbrev pub is_ready : TransitionStatus → Bool
is_ready ready = true
is_ready _ = false

abbrev pub advance_on : TransitionStatus → Option ReplaySession → Option ReplaySession
advance_on status none = none
advance_on status (some session) = if is_ready status then advance session else none

unfoldable pub replay_session_after_transition :
    WorkerState → String → TransitionStatus → Option ReplaySession
unfolding advance
replay_session_after_transition s source status =
    if source == "reflex"
    then advance_on status s.replay.replay_session
    else s.replay.replay_session

unfoldable pub blocked_recipe_keys : WorkerState → List String
blocked_recipe_keys s = keep (λ key. not (is_empty key)) s.replay.blocked_recipe_keys

abbrev pub holds : String → List String → Bool
holds key keys = any (λ k. k == key) keys

unfoldable pub blocked_recipe_keys_after : WorkerState → TransitionRequest → Bool → List String
unfolding blocked_recipe_keys
blocked_recipe_keys_after s request should_block =
    let keys = blocked_recipe_keys s in
    if should_block && not (is_empty request.recipe_key) && not (holds request.recipe_key keys)
    then keys ++ request.recipe_key ∷ []
    else keys

abbrev pub Verdict : Type 0
Verdict = Bool × String × MatchTrace

-- `ratio >= max(0.0, minimum)`
abbrev pub at_least : Ratio → Ratio → Bool
at_least minimum ratio = leb (minimum.part * ratio.whole) (ratio.part * minimum.whole)

abbrev pub frame_verdict : Ratio → EffectKind → Option Ratio → Verdict
frame_verdict minimum kind none = (false, "rule_effect_frame_unavailable", frame_error)
frame_verdict minimum target_region_change (some ratio) =
    if at_least minimum ratio
    then (true, "rule_target_region_change_verified", frame_ratio ratio)
    else (false, "rule_expected_region_unchanged", frame_ratio ratio)
frame_verdict minimum kind (some ratio) =
    if at_least minimum ratio
    then (true, "rule_screen_change_verified", frame_ratio ratio)
    else (false, "rule_expected_screen_unchanged", frame_ratio ratio)

-- The verdict by the kind of effect, once the URL and the role of the page agree with the rule.
abbrev pub kind_verdict :
    Frames → TransitionRequest → WorkerState → ExpectedEffect → EffectKind → Verdict
kind_verdict f request s effect url_change =
    let current_url = s.observation.current_url in
    let trace = url_pair request.before_url current_url in
    if not (is_empty current_url)
      && not (is_empty request.before_url)
      && not (current_url == request.before_url)
      && not (is_empty effect.expected_url_template)
    then (true, "rule_url_change_verified", trace)
    else (false, "rule_url_did_not_change", trace)
kind_verdict f request s effect page_change =
    let current_role = normalize_page_role f.unicode s.observation.current_page_role in
    let before_role = normalize_page_role f.unicode request.before_page_role in
    let trace = role_pair before_role current_role in
    if not (is_empty current_role)
      && not (is_empty before_role)
      && not (current_role == before_role)
    then (true, "rule_page_change_verified", trace)
    else (false, "rule_page_did_not_change", trace)
kind_verdict f request s effect kind =
    frame_verdict f.minimum kind (f.effect_ratio request s.observation.current_screenshot effect)

abbrev pub effect_verdict :
    Frames → TransitionRequest → WorkerState → Option ExpectedEffect → Verdict
effect_verdict f request s none = (false, "rule_expected_effect_missing", no_trace)
effect_verdict f request s (some effect) =
    let current_url = s.observation.current_url in
    let current_role = normalize_page_role f.unicode s.observation.current_page_role in
    let expected_role = normalize_page_role f.unicode effect.expected_page_role in
    if not (is_empty effect.expected_url_template)
      && not (f.url_scope_matches effect.expected_url_template current_url)
    then (false, "rule_effect_url_mismatch", current_url_trace current_url)
    else if not (is_empty expected_role)
        && not (is_empty current_role)
        && not (expected_role == current_role)
    then (false, "rule_effect_page_role_mismatch", role_mismatch expected_role current_role)
    else kind_verdict f request s effect effect.kind

unfoldable pub verify_replay_after_state : Frames → TransitionRequest → WorkerState → Verdict
verify_replay_after_state f request s =
    if request.execution_failed
    then (false, "rule_action_group_failed", no_trace)
    else effect_verdict f request s request.expected_effect

abbrev pub outcome_of : String → TransitionStatus → ReplaySession → Option (String × Bool)
outcome_of key status session =
    if is_empty key || not (pending_is_current session)
    then none
    else if is_ready status && not (is_last_step session)
    then none
    else some (key, is_ready status)

abbrev pub session_outcome :
    TransitionRequest → TransitionStatus → Option ReplaySession → Option (String × Bool)
session_outcome request status none = none
session_outcome request status (some session) =
    outcome_of (or_text session.recipe_key request.recipe_key) status session

-- The outcome that is persisted, if one is: the rule and whether it succeeded. A failure to persist
-- it is only logged.
unfoldable pub record_replay_outcome :
    WorkerState → TransitionRequest → TransitionStatus → Option (String × Bool)
unfolding pending_is_current is_last_step
record_replay_outcome s request status =
    if request.source == "reflex"
    then session_outcome request status s.replay.replay_session
    else none
