-- ===== src/Execution/Context.antt =====
-- agent/graph/worker_execution_context.py, agent/graph/worker_action_recording.py,
-- agent/graph/worker_transition_recording.py and agent/recipe/record.py: the context of one request,
-- and what an executed action leaves in it. Region, label and signature of a target are left out.
use l2c.Common.{
  ℕ, ◌+◌, String, Bool, true, false, ◌&&◌, ◌||◌, not, Option, none, some, List, [], ◌∷◌, ◌++◌, ◌==◌,
  nat_eq, length, any, is_some, if◌then◌else◌, Raises, raised, returned,
}
use l2c.Common.Text.{Unicode, or_text, strip, append, normalize_text}
use l2c.Site.{Sites, normalize_page_role}
use l2c.JobCards.Queue.{marker_by_id, show_nat}
use l2c.Worker.State.{
  Marker, Card, Args, no_args, ActionRequest, TransitionRequest, no_trace, waiting_capture,
  ObservedAction, Checkpoint, ActionResult, ActionEvent, WorkerState,
}
use l2c.Worker.Effect.{transition_result, with_result}
use l2c.Worker.Replay.{holds}
use l2c.Execution.Permission.{ui_actions}
use l2c.Execution.Policy.{
  is_target_action, Snapshot, state_snapshot_for_action, compact_action_args,
}

-- What an action tool returns; `opened` and `url` are those of its payload.
pub record ToolResult : Type 0 where
  pub action : String
  pub status : String
  pub reason : String
  pub error : String
  pub result : String
  pub opened : Bool
  pub url : String

-- How a review of a job's detail is requested (`_job_review_request_mode`).
pub data ReviewMode : Type 0 where
  empty unchanged lightweight primary : ReviewMode

-- What the execution asks of the rest of the program: the host of a URL, its template, whether the
-- target of an action has a signature, the marking of stored cards, and the mode of a review.
pub record Env : Type 0 where
  pub sites : Sites
  pub hostname : String → String
  pub url_template : String → String
  pub has_roi : WorkerState → Args → Bool
  pub mark_existing_job_cards : List Card → String → Raises (List Card)
  pub job_review_request_mode : WorkerState → String → Raises ReviewMode

-- The physical tools of agent/tools/actions.py.
pub record Tools : Type 0 where
  pub click_marker : List ℕ → Raises ToolResult
  pub type_in_marker : List ℕ → String → Raises ToolResult
  pub scroll : String → Option (List ℕ) → String → Raises ToolResult
  pub press_key : String → Raises ToolResult
  pub open_browser : String → String → Raises ToolResult
  pub close_current_tab : Raises ToolResult
  pub switch_tab : String → Raises ToolResult
  pub go_back : Raises ToolResult
  pub finish_task : String → Raises ToolResult

-- `WorkerExecutionContext`. `state` is the one that `context.state` names. The loop over the calls
-- keeps the state that it began with: `left_behind` is that state from the moment that
-- `context.state` names a copy of it.
pub record Context : Type 0 where
  pub action_request : ActionRequest
  pub prior_events : List ActionEvent
  pub new_events : List ActionEvent
  pub state : WorkerState
  pub left_behind : Option WorkerState

unfoldable pub from_state : WorkerState → ActionRequest → Context
from_state s request = record {
  action_request = request;
  prior_events = s.transition.action_events;
  new_events = [];
  state = s;
  left_behind = none;
}

unfoldable pub next_action_sequence : Context → ℕ
next_action_sequence c = length c.prior_events + length c.new_events

abbrev pub before_snapshot : Context → Snapshot
before_snapshot c = state_snapshot_for_action c.state

abbrev pub bbox_of : ℕ → Option Marker → Raises (List ℕ)
bbox_of id none =
    raised (append "Marker ID " (append (show_nat id) " not found in current screen."))
bbox_of id (some m) = returned m.bbox

-- `context.marker_bbox(args["marker_id"])`
unfoldable pub marker_bbox : Context → Option ℕ → Raises (List ℕ)
marker_bbox c none = raised "'marker_id'"
marker_bbox c (some id) = bbox_of id (marker_by_id c.state.observation.current_markers (some id))

abbrev pub waits_for_capture : WorkerState → Option TransitionRequest → WorkerState
waits_for_capture s none = s
waits_for_capture s (some request) =
    with_result s (transition_result (some request) waiting_capture "" false none false)

unfoldable pub finish_state : Context → WorkerState
finish_state c =
    let s = c.state in
    waits_for_capture
      (record s {
        decision = record s.decision { pending_action = none };
        transition = record s.transition { action_events = c.prior_events ++ c.new_events };
      })
      s.transition.transition_request

-- `_input_slot`
abbrev pub input_slot : Unicode → String → Args → String
input_slot u action_name args =
    if action_name == "type_in_marker" then normalize_text u args.slot_name else ""

-- `_action_param`
unfoldable pub action_param : Unicode → String → Args → Args
action_param u action_name args =
    if action_name == "type_in_marker"
    then record no_args { text = strip u args.text; slot_name = input_slot u action_name args }
    else if action_name == "press_key"
    then record no_args { key = args.key }
    else if action_name == "scroll"
    then record no_args {
      direction = or_text args.direction "down";
      amount = or_text args.amount "page";
    }
    else if action_name == "switch_tab"
    then record no_args { direction = args.direction }
    else if action_name == "open_browser"
    then record no_args { url = args.url }
    else no_args

abbrev pub takes_target : String → Args → Bool
takes_target action_name args = is_target_action action_name || is_some args.marker_id

unfoldable pub build_physical_action : Env → WorkerState → String → Args → ℕ → Option ObservedAction
unfolding action_param
build_physical_action e s action_name args seq =
    let u = e.sites.unicode in
    let found =
      takes_target action_name args
      && is_some (marker_by_id s.observation.current_markers args.marker_id) in
    if not (holds action_name ui_actions)
    then none
    else some (record {
      source_seq = seq;
      action = action_name;
      args = action_param u action_name args;
      slot = input_slot u action_name args;
      has_target = found;
      has_roi = found && e.has_roi s args;
    })

unfoldable pub build_screen_checkpoint : Env → WorkerState → Snapshot → Checkpoint
build_screen_checkpoint e s before = record {
  observation_id = or_text before.observation_id s.observation.observation_id;
  url_template = e.url_template (or_text before.url s.observation.current_url);
  page_role = normalize_page_role e.sites.unicode s.observation.current_page_role;
}

abbrev pub enrich_action_result : Context → ToolResult → String → Args → Snapshot → ActionResult
enrich_action_result c result action_name args before = record {
  action = result.action;
  status = result.status;
  reason = result.reason;
  error = result.error;
  args = some (compact_action_args action_name args);
  action_source = c.action_request.source;
  recipe_key =
      (if c.action_request.source == "reflex" then c.state.replay.reflex_trace.recipe_key else "");
  before_url = before.url;
}

abbrev pub checkpoint_if : Bool → Checkpoint → Option Checkpoint
checkpoint_if true checkpoint = some checkpoint
checkpoint_if false checkpoint = none

-- The call and its number, the result, what the screen was, and whether a UI action is recorded.
unfoldable pub record_action_result :
    Env → Context → String → Args → ToolResult → Snapshot → ℕ → Bool → Context
unfolding build_physical_action build_screen_checkpoint
record_action_result e c action_name args result before seq record_ui =
    let candidate =
      (if record_ui then build_physical_action e c.state action_name args seq else none) in
    record c {
      new_events =
          c.new_events
          ++ (record {
            seq = seq;
            result = enrich_action_result c result action_name args before;
            candidate_action = candidate;
            before_checkpoint =
                checkpoint_if (is_some candidate) (build_screen_checkpoint e c.state before);
            transition = none;
          })
            ∷ [];
    }

-- The request of the same group of actions, if there is one.
abbrev pub group_of : String → String → Option TransitionRequest → Option TransitionRequest
group_of observation_id source none = none
group_of observation_id source (some r) =
    if r.before_observation_id == observation_id && r.source == source then some r else none

abbrev pub group_text : (TransitionRequest → String) → Option TransitionRequest → String
group_text field none = ""
group_text field (some r) = field r

abbrev pub group_list {ℓ} :
    {A : Type ℓ} → (TransitionRequest → List A) → Option TransitionRequest → List A
group_list field none = []
group_list field (some r) = field r

abbrev pub add_seq : ℕ → List ℕ → List ℕ
add_seq n ns = if any (λ k. nat_eq k n) ns then ns else ns ++ n ∷ []

abbrev pub recorded_actions : List String → String → List String → List String
recorded_actions [] action_name recorded =
    if holds action_name recorded then recorded else recorded ++ action_name ∷ []
recorded_actions (m ∷ ms) action_name recorded = m ∷ ms

abbrev pub transition_request_of :
    Context → Option TransitionRequest → String → ℕ → String → Args → String → TransitionRequest
transition_request_of c group observation_id seq action_name args source =
    let o = c.state.observation in
    record {
      source = source;
      action = action_name;
      transition_actions =
          recorded_actions c.action_request.transition_actions action_name
            (group_list (λ r. r.transition_actions) group);
      action_seq = some seq;
      action_seqs = add_seq seq (group_list (λ r. r.action_seqs) group);
      before_url = or_text (group_text (λ r. r.before_url) group) o.current_url;
      before_page_role = or_text c.action_request.before_page_role o.current_page_role;
      before_screenshot =
          or_text (group_text (λ r. r.before_screenshot) group) o.current_screenshot;
      before_observation_id = observation_id;
      input_text = or_text args.text (group_text (λ r. r.input_text) group);
      recipe_key = (if source == "reflex" then c.state.replay.reflex_trace.recipe_key else "");
      expected_effect = c.action_request.expected_effect;
      execution_failed = false;
      after_state_match = no_trace;
    }

abbrev pub with_request : Context → TransitionRequest → Context
with_request c request = record c {
  state = record c.state {
    transition = record c.state.transition { transition_request = some request };
  };
}

unfoldable pub set_transition_request : Context → ℕ → String → Args → String → Context
set_transition_request c seq action_name args source =
    let id = or_text c.action_request.observation_id c.state.observation.observation_id in
    with_request c (
      transition_request_of c (group_of id source c.state.transition.transition_request) id seq
        action_name args source)
