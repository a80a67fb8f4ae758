-- ===== src/Examples/Actions.antt =====
-- A rule's step and a click of the model, each on a screen that has been read.
use l2c.Common.{
  returned, ◌&&◌, ◌≡◌, refl, ◌↔◌, ◌⊎◌, true, false, ◌||◌, not, none, some, [], ◌∷◌, ◌==◌,
  if◌then◌else◌,
}
use l2c.Worker.State.{
  screen_change, TransitionRequest, needs_ocr, ready, unknown, no_trace, ReplaySession, WorkerState,
  create_worker_state,
}
use l2c.Worker.Replay.{Frames, advance_on, verify_replay_after_state, blocked_recipe_keys, holds}
use l2c.Worker.Effect.{
  Screen, decide_after_ocr, inspect_action_effect, complete_action_effect, url_changed,
  completed_transition_update,
}
use l2c.Worker.Cycle.{Steps, decision_node}
use l2c.Worker.Decided.{Ends, decision_node-Ends}
use l2c.Worker.Texts.{input_text_confirmed_by_ocr}
use l2c.Worker.Judged.{
  request_after, status_after, inspect-waits_or_drops, decide_after_ocr-ready, complete-settles,
  complete-rule,
}
use l2c.Examples.{ascii, sites}

abbrev frames : Frames
frames = record {
  unicode = ascii;
  url_scope_matches = λ template url. template == url;
  effect_ratio = λ request path effect. some (record { part = 3; whole = 10 });
  minimum = record { part = 1; whole = 10 };
}

abbrev pub screen : Screen
screen = record {
  frames = frames;
  sites = sites;
  visual_change_ratio = λ request path. some (record { part = 3; whole = 10 });
  minimum_ratio = record { part = 1; whole = 10 };
  url_template = λ url. url;
}

abbrev request : TransitionRequest
request = record {
  source = "reflex";
  action = "click_marker";
  transition_actions = [];
  action_seq = some 1;
  action_seqs = [];
  before_url = "/list";
  before_page_role = "search";
  before_screenshot = "o1.png";
  before_observation_id = "o1";
  input_text = "";
  recipe_key = "rule";
  expected_effect =
      some
        (record { kind = screen_change; expected_url_template = "/list"; expected_page_role = "" });
  execution_failed = false;
  after_state_match = no_trace;
}

abbrev session : ReplaySession
session = record {
  recipe_key = "rule";
  current_step_index = 0;
  pending_step_index = some 0;
  step_count = 2;
}

-- The state after the rule's first step: captured, read, and waiting for the judgement.
abbrev pub judged_state : WorkerState
judged_state = record create_worker_state {
  observation = record create_worker_state.observation {
    observation_id = "o2";
    current_screenshot = "o2.png";
    current_url = "/list";
    ocr_complete = true;
    current_markers = record { id = 1; text = "backend"; bbox = []; kind = "text" } ∷ [];
  };
  transition = record create_worker_state.transition {
    transition_request = some request;
    transition_result = record create_worker_state.transition.transition_result {
      status = needs_ocr;
      visual_change_detected = true;
    };
  };
  replay = record create_worker_state.replay { replay_session = some session };
}

inspect-waits_or_drops_example :
    ((request_after (inspect_action_effect screen judged_state) ≡ some request)
      × (status_after (inspect_action_effect screen judged_state) ≡ needs_ocr))
    ⊎ ((request_after (inspect_action_effect screen judged_state) ≡ none)
        × (status_after (inspect_action_effect screen judged_state) ≡ unknown))
inspect-waits_or_drops_example = inspect-waits_or_drops screen judged_state request refl refl

abbrev click : TransitionRequest
click = record request { source = "reasoning"; recipe_key = "" }

decide_after_ocr-ready_example :
    ((decide_after_ocr screen judged_state click true).status ≡ ready) ↔ (
      (url_changed judged_state click
        || true
        || input_text_confirmed_by_ocr ascii judged_state click)
      ≡ true)
decide_after_ocr-ready_example = decide_after_ocr-ready screen judged_state click true

abbrev completed_state : WorkerState
completed_state =
    completed_transition_update screen judged_state
      (decide_after_ocr screen judged_state request true) true none false

complete-settles_example :
    (true ≡ true)
    × (status_after judged_state ≡ needs_ocr)
    × (request_after completed_state ≡ none)
    × ((status_after completed_state ≡ ready) ⊎ (status_after completed_state ≡ unknown))
unfolding complete_action_effect
complete-settles_example = complete-settles screen judged_state completed_state request refl refl

complete-rule_example :
    let verified = (verify_replay_after_state frames request judged_state).0 in
    (completed_state.replay.replay_session
      ≡ (if verified then advance_on ready (some session) else none))
    × (holds "other" completed_state.replay.blocked_recipe_keys
        ≡ ((not verified && "rule" == "other") || holds "other" (blocked_recipe_keys judged_state)))
unfolding complete_action_effect
complete-rule_example =
    complete-rule screen judged_state completed_state request "other" refl refl refl refl

-- A worker whose screen is read in one go and whose model finishes the run.
abbrev steps : Steps
steps = record {
  screen = screen;
  reflex_enabled = true;
  capture = λ s. returned s;
  ocr = λ s. returned (record s { observation = record s.observation { ocr_complete = true } });
  selection = λ s. returned s;
  reasoning = λ s. returned (record s { lifecycle = record s.lifecycle { is_finished = true } });
  reflex = λ s. returned s;
}

decision_node-Ends_example : Ends steps judged_state (decision_node steps judged_state)
decision_node-Ends_example = decision_node-Ends steps judged_state
