-- ===== src/Worker/State.antt =====
-- The sections of `WorkerState` (agent/runtime/worker_contracts.py) and the queries of
-- agent/runtime/worker_state.py. A key that is missing from one of the program's dictionaries is
-- the value that every reader puts in its place: an empty text, an empty list, `false`, `none`.
use l2c.Common.{ℕ, String, Bool, true, false, ◌&&◌, not, Option, none, List, [], ◌∷◌}
use l2c.Common.Text.{is_empty}

-- `ScreenMarker`
pub record Marker : Type 0 where
  pub id : ℕ
  pub text : String
  pub bbox : List ℕ
  pub kind : String

-- The keys of a job card that its readers can tell apart: an absent or empty status is `missing`,
-- and any other text that the code does not test for is `other`.
pub data CardStatus : Type 0 where
  missing pending active done skipped rejected : CardStatus
  other : String → CardStatus

pub record Card : Type 0 where
  pub queue_id : String
  pub status : CardStatus
  pub title : String
  pub company : String
  pub source_marker_id : Option ℕ
  pub source_marker_text : String
  pub source_marker_bbox : List ℕ
  pub source_observation_id : String
  pub source_screenshot_path : String
  pub skip_reason : String
  pub rejection_reason : String
  pub detail_url : String
  pub job_id : Option ℕ

-- A pixel ratio, as the counts that it divides.
pub record Ratio : Type 0 where
  pub part : ℕ
  pub whole : ℕ

pub record Signature : Type 0 where
  pub phash : String
  pub size : List ℕ

-- `PreviousObservation`
pub record Previous : Type 0 where
  pub observation_id : String
  pub screenshot : String
  pub current_url : String
  pub page_role : String
  pub ui_context : String
  pub marked_image : String
  pub markers : List Marker
  pub screen_signature : Signature

pub record Observation : Type 0 where
  pub observation_id : String
  pub current_screenshot : String
  pub current_url : String
  pub current_url_stale : Bool
  pub current_page_role : String
  pub ui_context : String
  pub marked_image : String
  pub ocr_complete : Bool
  pub low_information_screen : Bool
  pub current_markers : List Marker
  pub screen_signature : Signature
  pub raw_screen_signature : Signature
  pub previous : Option Previous

-- A card as the tool call gives it; an absent title or company is the empty text.
pub record RawCard : Type 0 where
  pub marker_id : ℕ
  pub title : String
  pub company : String

-- The arguments of a tool call that the modelled code reads; an absent one is empty.
pub record Args : Type 0 where
  pub marker_id : Option ℕ
  pub target_label : String
  pub text : String
  pub slot_name : String
  pub key : String
  pub direction : String
  pub amount : String
  pub url : String
  pub risk_level : String
  pub result : String
  pub cards : List RawCard

abbrev pub no_args : Args
no_args = record {
  marker_id = none;
  target_label = "";
  text = "";
  slot_name = "";
  key = "";
  direction = "";
  amount = "";
  url = "";
  risk_level = "";
  result = "";
  cards = [];
}

-- `queue_id` and `transition_source` are metadata of the call.
pub record ToolCall : Type 0 where
  pub name : String
  pub call_id : String
  pub args : Args
  pub queue_id : String
  pub transition_source : String

-- `ExpectedEffect.kind`
pub data EffectKind : Type 0 where
  url_change page_change target_region_change screen_change : EffectKind

pub record ExpectedEffect : Type 0 where
  pub kind : EffectKind
  pub expected_url_template : String
  pub expected_page_role : String

-- `ActionRequest`; the last three fields are metadata that a replayed rule sets.
pub record ActionRequest : Type 0 where
  pub source : String
  pub observation_id : String
  pub summary : String
  pub tool_calls : List ToolCall
  pub transition_actions : List String
  pub expected_effect : Option ExpectedEffect
  pub before_page_role : String

-- What `verify_replay_after_state` reports beside its verdict.
pub data MatchTrace : Type 0 where
  no_trace : MatchTrace
  current_url_trace : String → MatchTrace
  role_mismatch : String → String → MatchTrace
  url_pair : String → String → MatchTrace
  role_pair : String → String → MatchTrace
  frame_error : MatchTrace
  frame_ratio : Ratio → MatchTrace

pub record TransitionRequest : Type 0 where
  pub source : String
  pub action : String
  pub transition_actions : List String
  pub action_seq : Option ℕ
  pub action_seqs : List ℕ
  pub before_url : String
  pub before_page_role : String
  pub before_screenshot : String
  pub before_observation_id : String
  pub input_text : String
  pub recipe_key : String
  pub expected_effect : Option ExpectedEffect
  pub execution_failed : Bool
  pub after_state_match : MatchTrace

pub data TransitionStatus : Type 0 where
  absent idle waiting_capture pending needs_ocr ready unknown : TransitionStatus

-- `TransitionResult`: the keys of the request, if there was one, and the verdict.
pub record TransitionResult : Type 0 where
  pub request : Option TransitionRequest
  pub status : TransitionStatus
  pub outcome : String
  pub reason : String
  pub visual_change_detected : Bool
  pub visual_change_ratio : Option Ratio
  pub needs_ocr : Bool

-- `ObservedAction`: `slot` is what `parameter_slot` returns.
pub record ObservedAction : Type 0 where
  pub source_seq : ℕ
  pub action : String
  pub args : Args
  pub slot : String
  pub has_target : Bool
  pub has_roi : Bool

-- `ScreenCheckpoint`, its signatures left out.
pub record Checkpoint : Type 0 where
  pub observation_id : String
  pub url_template : String
  pub page_role : String

-- `ObservedTransitionEvidence`
pub record Evidence : Type 0 where
  pub source : String
  pub result_status : String
  pub result_reason : String
  pub status : TransitionStatus
  pub reason : String
  pub recipe_key : String
  pub transition_actions : List String
  pub visual_change_ratio : Option Ratio
  pub ocr_skipped : Bool
  pub screenshot : String
  pub marked_image : String

pub record ObservedTransition : Type 0 where
  pub seq : ℕ
  pub before : Checkpoint
  pub actions : List ObservedAction
  pub after : Checkpoint
  pub evidence : Option Evidence

-- The result of an execution event, as far as decisions read it.
pub record ActionResult : Type 0 where
  pub action : String
  pub status : String
  pub reason : String
  pub error : String
  pub args : Option Args
  pub action_source : String
  pub recipe_key : String
  pub before_url : String

-- `ExecutionEvent`
pub record ActionEvent : Type 0 where
  pub seq : ℕ
  pub result : ActionResult
  pub candidate_action : Option ObservedAction
  pub before_checkpoint : Option Checkpoint
  pub transition : Option ObservedTransition

pub record ReplaySession : Type 0 where
  pub recipe_key : String
  pub current_step_index : ℕ
  pub pending_step_index : Option ℕ
  pub step_count : ℕ

-- `reflex_trace`: `hit` is absent before the first attempt.
pub record ReflexTrace : Type 0 where
  pub hit : Option Bool
  pub recipe_key : String
  pub observation_id : String

-- `JobReviewStatus` and the rest of `last_job_review` that the modelled code reads.
pub data ReviewStatus : Type 0 where
  complete needs_more source_incomplete invalid_target : ReviewStatus

pub record Review : Type 0 where
  pub status : ReviewStatus
  pub url : String

-- The sections.
pub record Decision : Type 0 where
  pub pending_action : Option ActionRequest

pub record Transition : Type 0 where
  pub action_events : List ActionEvent
  pub error_count : ℕ
  pub transition_request : Option TransitionRequest
  pub transition_result : TransitionResult

pub record Replay : Type 0 where
  pub reflex_trace : ReflexTrace
  pub replay_session : Option ReplaySession
  pub blocked_recipe_keys : List String

pub record Collection : Type 0 where
  pub capture_urls : List String
  pub job_card_queue : List Card
  pub has_job_draft : Bool
  pub last_job_review : Option Review

pub record Lifecycle : Type 0 where
  pub is_finished : Bool
  pub completion_reason : String

-- `action_permission_contract`; an empty one is absent.
pub record Contract : Type 0 where
  pub allowed_domains : List String
  pub allowed_input_values : List String

pub record WorkerState : Type 0 where
  pub permission : Option Contract
  pub count_mode : String
  pub target_count : ℕ
  pub stage : String
  pub observation : Observation
  pub decision : Decision
  pub transition : Transition
  pub replay : Replay
  pub collection : Collection
  pub lifecycle : Lifecycle

unfoldable pub current_observation_ready : WorkerState → Bool
current_observation_ready s =
    not (is_empty s.observation.observation_id)
    && not (is_empty s.observation.current_screenshot)
    && s.observation.ocr_complete

unfoldable pub current_frame_signature : WorkerState → Signature
current_frame_signature s = choose s.observation.screen_signature.size
  where
    choose : List ℕ → Signature
    choose [] = s.observation.raw_screen_signature
    choose (n ∷ ns) = s.observation.screen_signature

-- The state of `create_worker_state` with no overrides.
abbrev pub no_signature : Signature
no_signature = record { phash = ""; size = [] }

abbrev pub create_worker_state : WorkerState
create_worker_state = record {
  permission = none;
  count_mode = "visible_all";
  target_count = 0;
  stage = "navigation";
  observation = record {
    observation_id = "";
    current_screenshot = "";
    current_url = "";
    current_url_stale = true;
    current_page_role = "";
    ui_context = "";
    marked_image = "";
    ocr_complete = false;
    low_information_screen = false;
    current_markers = [];
    screen_signature = no_signature;
    raw_screen_signature = no_signature;
    previous = none;
  };
  decision = record { pending_action = none };
  transition = record {
    action_events = [];
    error_count = 0;
    transition_request = none;
    transition_result = record {
      request = none;
      status = idle;
      outcome = "";
      reason = "";
      visual_change_detected = false;
      visual_change_ratio = none;
      needs_ocr = false;
    };
  };
  replay = record {
    reflex_trace = record { hit = none; recipe_key = ""; observation_id = "" };
    replay_session = none;
    blocked_recipe_keys = [];
  };
  collection = record {
    capture_urls = [];
    job_card_queue = [];
    has_job_draft = false;
    last_job_review = none;
  };
  lifecycle = record { is_finished = false; completion_reason = "" };
}
