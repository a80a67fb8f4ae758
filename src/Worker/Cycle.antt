-- ===== src/Worker/Cycle.antt =====
-- agent/graph/worker_cycle.py: how the worker decides its next action. The inner nodes that ask the
-- screen, the OCR, the stored rules and the model are parameters.
use l2c.Common.{
  String, Raises, raised, returned, Bool, true, false, ◌&&◌, ◌||◌, not, Option, none, some, ◌==◌,
  last?, is_some, if◌then◌else◌,
}
use l2c.Common.Text.{is_empty}
use l2c.Worker.State.{
  ActionRequest, TransitionStatus, pending, unknown, ActionEvent, ReviewStatus, needs_more, Review,
  WorkerState, current_observation_ready,
}
use l2c.Worker.Effect.{
  Screen, Completion, updated, ocr_missing, not_awaited, awaits_ocr, inspect_action_effect,
  complete_action_effect,
}
use l2c.JobCards.Queue.{has_unresolved_job_card_queue}

-- The inner nodes, each with its update merged or with the exception that it raises, and the setting
-- that allows replays.
pub record Steps : Type 0 where
  pub screen : Screen
  pub reflex_enabled : Bool
  pub capture : WorkerState → Raises WorkerState
  pub ocr : WorkerState → Raises WorkerState
  pub selection : WorkerState → Raises WorkerState
  pub reasoning : WorkerState → Raises WorkerState
  pub reflex : WorkerState → Raises WorkerState

abbrev pub has_pending_action : WorkerState → Bool
has_pending_action s = is_some s.decision.pending_action

abbrev pub is_miss : Option Bool → Bool
is_miss (some false) = true
is_miss _ = false

unfoldable pub reflex_missed_current_observation : WorkerState → Bool
reflex_missed_current_observation s =
    not (is_empty s.observation.observation_id)
    && is_miss s.replay.reflex_trace.hit
    && s.replay.reflex_trace.observation_id == s.observation.observation_id

abbrev pub asks_more : Option Review → Bool
asks_more none = false
asks_more (some review) = wants review.status
  where
    wants : ReviewStatus → Bool
    wants needs_more = true
    wants _ = false

abbrev pub is_review : Option ActionEvent → Bool
is_review none = false
is_review (some event) = event.result.action == "review_job_detail"

unfoldable pub review_follow_up_due : WorkerState → Bool
review_follow_up_due s =
    asks_more s.collection.last_job_review && is_review (last? s.transition.action_events)

abbrev pub is_reflex_request : Option ActionRequest → Bool
is_reflex_request none = false
is_reflex_request (some request) = request.source == "reflex"

abbrev pub tried : Raises WorkerState → Raises (WorkerState × Bool)
tried (raised error) = raised error
tried (returned t) = returned (t, is_reflex_request t.decision.pending_action)

unfoldable pub try_reflex : Steps → WorkerState → Raises (WorkerState × Bool)
unfolding reflex_missed_current_observation
try_reflex n s =
    if not n.reflex_enabled || reflex_missed_current_observation s
    then returned (s, false)
    else tried (n.reflex s)

-- How a node ends: with a state, or with an exception, which an inner node raises or the judgement
-- that waits for the OCR.
pub data NodeEnd : Type 0 where
  went : WorkerState → NodeEnd
  inner_raised : String → NodeEnd
  unread : NodeEnd
  unawaited : NodeEnd

abbrev pub node_end : Raises WorkerState → NodeEnd
node_end (raised error) = inner_raised error
node_end (returned s) = went s

abbrev pub judgement_end : Completion → NodeEnd
judgement_end (updated s) = went s
judgement_end ocr_missing = unread
judgement_end not_awaited = unawaited

-- What follows a step that may raise.
abbrev pub after : NodeEnd → (WorkerState → NodeEnd) → NodeEnd
after (went s) f = f s
after (inner_raised error) f = inner_raised error
after unread f = unread
after unawaited f = unawaited

abbrev pub judged_if_awaited : Steps → WorkerState → NodeEnd
judged_if_awaited n s =
    if is_some s.transition.transition_request && awaits_ocr s.transition.transition_result.status
    then judgement_end (complete_action_effect n.screen s)
    else went s

-- The OCR of the screen, and the judgement that waits for it.
unfoldable pub run_ocr : Steps → WorkerState → NodeEnd
run_ocr n s = after (node_end (n.ocr s)) (judged_if_awaited n)

abbrev pub is_waiting : TransitionStatus → Bool
is_waiting pending = true
is_waiting _ = false

abbrev pub is_unknown : TransitionStatus → Bool
is_unknown unknown = true
is_unknown _ = false

unfoldable pub decision_is_resolved : WorkerState → Bool
decision_is_resolved s =
    s.lifecycle.is_finished
    || has_pending_action s
    || s.observation.low_information_screen
    || is_waiting s.transition.transition_result.status

abbrev pub read_and_select : Steps → WorkerState → NodeEnd
read_and_select n s = after (run_ocr n s) (λ t. node_end (n.selection t))

abbrev pub or_read : Steps → Raises (WorkerState × Bool) → NodeEnd
or_read n (raised error) = inner_raised error
or_read n (returned (s, hit)) = if hit then went s else read_and_select n s

unfoldable pub prepare_current_observation : Steps → WorkerState → NodeEnd
unfolding try_reflex run_ocr
prepare_current_observation n s =
    let status = s.transition.transition_result.status in
    if current_observation_ready s
    then went s
    else if awaits_ocr status || is_unknown status
    then read_and_select n s
    else or_read n (try_reflex n s)

unfoldable pub observation_node : Steps → WorkerState → NodeEnd
observation_node n s =
    after (node_end (n.capture s)) (λ captured. went (inspect_action_effect n.screen captured))

abbrev pub or_reason : Steps → Raises (WorkerState × Bool) → NodeEnd
or_reason n (raised error) = inner_raised error
or_reason n (returned (s, hit)) = if hit then went s else node_end (n.reasoning s)

unfoldable pub decide_prepared : Steps → WorkerState → NodeEnd
unfolding decision_is_resolved try_reflex
decide_prepared n s =
    if decision_is_resolved s
    then went s
    else if has_unresolved_job_card_queue s || is_unknown s.transition.transition_result.status
    then node_end (n.reasoning s)
    else or_reason n (try_reflex n s)

abbrev pub unless_selected : Steps → WorkerState → NodeEnd
unless_selected n selected =
    if decision_is_resolved selected
    then went selected
    else after (prepare_current_observation n selected) (decide_prepared n)

unfoldable pub decision_node : Steps → WorkerState → NodeEnd
unfolding review_follow_up_due decision_is_resolved prepare_current_observation decide_prepared
decision_node n s =
    if s.lifecycle.is_finished || has_pending_action s
    then went s
    else if review_follow_up_due s
    then node_end (n.reasoning s)
    else after (node_end (n.selection s)) (unless_selected n)
