-- ===== src/Worker/Effect.antt =====
-- agent/graph/worker_transition.py and the observations of agent/runtime/transition_runtime.py: the
-- judgement of an action's effect, before the OCR of the new screen and after it. The updates that
-- the nodes return are merged into the state, as `apply_worker_state_update` does.
use l2c.Common.{
  String, Bool, true, false, ◌&&◌, ◌||◌, not, Option, none, some, map, ◌==◌, leb, length, is_some,
  if◌then◌else◌,
}
use l2c.Common.Text.{is_empty, or_text}
use l2c.Site.{Sites, is_job_detail_context}
use l2c.Worker.State.{
  Marker, Ratio, Signature, Previous, Observation, TransitionRequest, TransitionStatus, idle,
  pending, needs_ocr, ready, unknown, TransitionResult, WorkerState,
}
use l2c.Worker.Replay.{
  Frames, Verdict, verify_replay_after_state, at_least, blocked_recipe_keys_after,
  replay_session_after_transition,
}
use l2c.Worker.History.{Completed, transition_record, attach_action_transition}
use l2c.Worker.Texts.{types_text, input_text_confirmed_by_ocr}

-- What the judgement asks of the rest of the program: the change between the frames of a request
-- and of the current screen, the minimum that counts for an action of the model, and the template of
-- a URL (agent/utils/text.py).
pub record Screen : Type 0 where
  pub frames : Frames
  pub sites : Sites
  pub visual_change_ratio : TransitionRequest → String → Option Ratio
  pub minimum_ratio : Ratio
  pub url_template : String → String

-- `TransitionDecision`
pub record TransitionDecision : Type 0 where
  pub request : TransitionRequest
  pub status : TransitionStatus
  pub reason : String
  pub needs_ocr : Bool
  pub records_outcome : Bool
  pub block_recipe : Bool
  pub reuse_previous_ocr : Bool

abbrev pub reached_minimum : Ratio → Option Ratio → Bool
reached_minimum minimum none = false
reached_minimum minimum (some ratio) = at_least minimum ratio

-- `transition_has_visual_change`: the verdict; the ratio itself is `visual_change_ratio`.
unfoldable pub transition_has_visual_change : Screen → TransitionRequest → String → Bool
transition_has_visual_change e request path =
    reached_minimum (if request.source == "reflex" then e.frames.minimum else e.minimum_ratio)
      (e.visual_change_ratio request path)

abbrev pub ocr_required : TransitionRequest → String → TransitionDecision
ocr_required request reason = record {
  request = request;
  status = needs_ocr;
  reason = reason;
  needs_ocr = true;
  records_outcome = false;
  block_recipe = false;
  reuse_previous_ocr = false;
}

unfoldable pub decide_before_ocr :
    Screen → WorkerState → TransitionRequest → Bool → TransitionDecision
unfolding verify_replay_after_state
decide_before_ocr e s request visual_changed =
    let is_reflex = request.source == "reflex" in
    if is_reflex && (verify_replay_after_state e.frames request s).0
    then ocr_required request "rule_effect_ocr_required"
    else if visual_changed || types_text e.sites.unicode request
    then ocr_required request (if visual_changed then "ocr_required" else "input_ocr_required")
    else record {
      request = request;
      status = unknown;
      reason = (if is_reflex then "reflex_no_screen_change" else "no_screen_change");
      needs_ocr = false;
      records_outcome = true;
      block_recipe = is_reflex;
      reuse_previous_ocr = true;
    }

abbrev pub judged : TransitionRequest → TransitionStatus → String → Bool → TransitionDecision
judged request status reason block_recipe = record {
  request = request;
  status = status;
  reason = reason;
  needs_ocr = false;
  records_outcome = true;
  block_recipe = block_recipe;
  reuse_previous_ocr = false;
}

abbrev pub judged_rule : TransitionRequest → Verdict → TransitionDecision
judged_rule request (matched, reason, trace) =
    judged (record request { after_state_match = trace }) (if matched then ready else unknown)
      reason (not matched)

unfoldable pub url_changed : WorkerState → TransitionRequest → Bool
url_changed s request =
    not (is_empty request.before_url)
    && not (is_empty s.observation.current_url)
    && not (request.before_url == s.observation.current_url)

unfoldable pub queue_target_reached : Screen → WorkerState → Bool
queue_target_reached e s =
    is_job_detail_context e.sites s.observation.current_url s.observation.current_page_role
      (map (λ (marker : Marker). marker.text) s.observation.current_markers)

unfoldable pub decide_after_ocr :
    Screen → WorkerState → TransitionRequest → Bool → TransitionDecision
unfolding verify_replay_after_state url_changed queue_target_reached input_text_confirmed_by_ocr
decide_after_ocr e s request visual_changed =
    let moved = url_changed s request in
    let typed = input_text_confirmed_by_ocr e.sites.unicode s request in
    if request.source == "reflex"
    then judged_rule request (verify_replay_after_state e.frames request s)
    else if request.source == "job_card_queue" && not (queue_target_reached e s)
    then judged request unknown "job_card_detail_not_reached" false
    else if leb 1 (length s.observation.current_markers) && (moved || visual_changed || typed)
    then judged request ready
        (if visual_changed
          then "screen_change_pixels_matched"
          else if moved
          then "screen_change_url_matched"
          else "input_text_ocr_matched")
        false
    else if not moved && not visual_changed
    then judged request unknown "no_screen_change" false
    else judged request unknown "transition_change_unverified" false

abbrev pub merged_signature : Signature → Signature → Signature
merged_signature raw old = record {
  phash = or_text raw.phash old.phash;
  size = (if leb 1 (length raw.size) then raw.size else old.size);
}

abbrev pub reuses : Observation → TransitionRequest → Previous → Bool
reuses o request previous =
    request.before_observation_id == previous.observation_id
    && request.before_screenshot == previous.screenshot
    && (is_empty request.before_url
        || is_empty previous.current_url
        || request.before_url == previous.current_url)
    && leb 1 (length previous.markers)

abbrev pub reused_from : Observation → TransitionRequest → Option Previous → Observation
reused_from o request none = o
reused_from o request (some previous) =
    let signature = merged_signature o.raw_screen_signature previous.screen_signature in
    if reuses o request previous
    then record o {
      current_markers = previous.markers;
      ui_context = previous.ui_context;
      marked_image = previous.marked_image;
      screen_signature = signature;
      current_page_role = previous.page_role;
      ocr_complete = true;
      previous = some (record previous {
        observation_id = o.observation_id;
        screenshot = o.current_screenshot;
        current_url = or_text o.current_url previous.current_url;
        screen_signature = signature;
      });
    }
    else o

-- `reused_ocr_observation`, merged into the observation.
unfoldable pub reused_ocr_observation : WorkerState → TransitionRequest → Observation
reused_ocr_observation s request = reused_from s.observation request s.observation.previous

abbrev pub transition_result :
    Option TransitionRequest
    → TransitionStatus
    → String
    → Bool
    → Option Ratio
    → Bool
    → TransitionResult
transition_result request status reason visual_changed ratio needs = record {
  request = request;
  status = status;
  outcome = "";
  reason = reason;
  visual_change_detected = visual_changed;
  visual_change_ratio = ratio;
  needs_ocr = needs;
}

abbrev pub with_result : WorkerState → TransitionResult → WorkerState
with_result s result = record s { transition = record s.transition { transition_result = result } }

abbrev pub result_of : TransitionDecision → Bool → Option Ratio → TransitionResult
result_of d visual_changed ratio =
    transition_result (some d.request) d.status d.reason visual_changed ratio d.needs_ocr

unfoldable pub pending_transition_update :
    WorkerState → TransitionDecision → Bool → Option Ratio → WorkerState
pending_transition_update s d visual_changed ratio = record s {
  transition = record s.transition {
    transition_request = some d.request;
    transition_result = result_of d visual_changed ratio;
  };
}

abbrev pub observation_after : WorkerState → TransitionDecision → Observation
observation_after s d =
    if d.reuse_previous_ocr then reused_ocr_observation s d.request else s.observation

-- The observation that closes the awaited action.
abbrev pub completed_by :
    Screen → WorkerState → TransitionDecision → Option Ratio → Bool → Completed
completed_by e s d ratio ocr_skipped =
    transition_record e.url_template (record s { observation = observation_after s d }) d.request
      d.status d.reason ratio ocr_skipped

unfoldable pub completed_transition_update :
    Screen → WorkerState → TransitionDecision → Bool → Option Ratio → Bool → WorkerState
unfolding transition_record attach_action_transition reused_ocr_observation
    blocked_recipe_keys_after replay_session_after_transition
completed_transition_update e s d changed ratio ocr_skipped = record s {
  observation = observation_after s d;
  transition = record s.transition {
    transition_request = none;
    transition_result = result_of d changed ratio;
    action_events =
        attach_action_transition s.transition.action_events (completed_by e s d ratio ocr_skipped);
  };
  replay = record s.replay {
    blocked_recipe_keys = blocked_recipe_keys_after s d.request d.block_recipe;
    replay_session = replay_session_after_transition s d.request.source d.status;
  };
}

abbrev pub low_information_status : Option TransitionRequest → TransitionStatus
low_information_status none = idle
low_information_status (some request) = pending

-- The state updated where there is nothing to judge.
unfoldable pub transition_result_without_request :
    WorkerState → Option TransitionRequest → Option WorkerState
transition_result_without_request s request =
    if s.observation.low_information_screen
    then some (
        with_result s (
          transition_result request (low_information_status request) "low_information_screen" false
            none false))
    else if is_some request
    then none
    else some (
        with_result s (
          transition_result none idle "no_transition_request" false none
            (not s.observation.ocr_complete)))

abbrev pub judge_request : Screen → WorkerState → Option TransitionRequest → WorkerState
judge_request e s none = s
judge_request e s (some request) =
    let path = s.observation.current_screenshot in
    let ratio = e.visual_change_ratio request path in
    let changed = transition_has_visual_change e request path in
    let d = decide_before_ocr e s request changed in
    if d.records_outcome
    then completed_transition_update e s d changed ratio (not s.observation.ocr_complete)
    else pending_transition_update s d changed ratio

-- Without a request there is always a first result.
abbrev pub or_judge :
    Screen → WorkerState → Option TransitionRequest → Option WorkerState → WorkerState
or_judge e s request (some t) = t
or_judge e s request none = judge_request e s request

unfoldable pub inspect_action_effect : Screen → WorkerState → WorkerState
unfolding transition_result_without_request transition_has_visual_change decide_before_ocr
    pending_transition_update completed_transition_update
inspect_action_effect e s =
    let request = s.transition.transition_request in
    or_judge e s request (transition_result_without_request s request)

-- How `complete_action_effect` ends: with the state updated, or with one of its two errors.
pub data Completion : Type 0 where
  updated : WorkerState → Completion
  ocr_missing : Completion
  not_awaited : Completion

abbrev pub awaits_ocr : TransitionStatus → Bool
awaits_ocr needs_ocr = true
awaits_ocr _ = false

abbrev pub complete_request : Screen → WorkerState → Option TransitionRequest → Completion
complete_request e s none = updated s
complete_request e s (some request) =
    let result = s.transition.transition_result in
    if not s.observation.ocr_complete
    then ocr_missing
    else if not (awaits_ocr result.status)
    then not_awaited
    else updated (
        completed_transition_update e s (decide_after_ocr e s request result.visual_change_detected)
          result.visual_change_detected result.visual_change_ratio false)

unfoldable pub complete_action_effect : Screen → WorkerState → Completion
unfolding decide_after_ocr completed_transition_update
complete_action_effect e s = complete_request e s s.transition.transition_request
