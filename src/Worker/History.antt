-- ===== src/Worker/History.antt =====
-- The history of executed actions: agent/runtime/worker_contracts.py `attach_action_transition`, and
-- the record of a transition and its reading in agent/runtime/transition_runtime.py. The elapsed
-- time and the texts of the screen, which only the learning of rules reads, are left out.
use l2c.Common.{
  ℕ, String, Bool, true, false, ◌&&◌, ◌||◌, not, Option, none, some, List, [], ◌∷◌, map, ◌==◌,
  nat_eq, length, any, all, keep, last?, collect_some, is_some, if◌then◌else◌,
}
use l2c.Common.Text.{is_empty, or_text}
use l2c.Worker.State.{
  Args, ObservedAction, Checkpoint, Evidence, ObservedTransition, ActionEvent, Ratio,
  TransitionRequest, TransitionStatus, unknown, WorkerState,
}

-- `CompletedTransitionObservation`
pub record Completed : Type 0 where
  pub action_seq : Option ℕ
  pub action_seqs : List ℕ
  pub source : String
  pub status : TransitionStatus
  pub reason : String
  pub recipe_key : String
  pub transition_actions : List String
  pub visual_change_ratio : Option Ratio
  pub ocr_skipped : Bool
  pub screenshot : String
  pub marked_image : String
  pub after : Checkpoint

unfoldable pub transition_record :
    (String → String)
    → WorkerState
    → TransitionRequest
    → TransitionStatus
    → String
    → Option Ratio
    → Bool
    → Completed
transition_record url_template s request status reason ratio ocr_skipped = record {
  action_seq = request.action_seq;
  action_seqs = request.action_seqs;
  source = request.source;
  status = status;
  reason = reason;
  recipe_key = request.recipe_key;
  transition_actions = request.transition_actions;
  visual_change_ratio = ratio;
  ocr_skipped = ocr_skipped;
  screenshot = s.observation.current_screenshot;
  marked_image = s.observation.marked_image;
  after = record {
    observation_id = s.observation.observation_id;
    url_template = url_template s.observation.current_url;
    page_role = s.observation.current_page_role;
  };
}

abbrev pub one_or_none : Option ℕ → List ℕ
one_or_none none = []
one_or_none (some n) = n ∷ []

-- The numbers of the actions that a transition closes.
unfoldable pub closed_seqs : Completed → List ℕ
closed_seqs c = if nat_eq (length c.action_seqs) 0 then one_or_none c.action_seq else c.action_seqs

abbrev pub selected_events : List ℕ → List ActionEvent → List ActionEvent
selected_events seqs events = keep (λ e. any (λ n. nat_eq n e.seq) seqs) events

unfoldable pub group_status : List String → String
group_status statuses =
    if not (nat_eq (length statuses) 0) && all (λ s. s == "success") statuses
    then "success"
    else if any (λ s. s == "error") statuses
    then "error"
    else if any (λ s. s == "skipped") statuses
    then "skipped"
    else ""

abbrev pub final_reason : Option ActionEvent → String
final_reason none = ""
final_reason (some e) = or_text e.result.reason e.result.error

abbrev pub first_seq : List ℕ → ℕ
first_seq [] = 0
first_seq (n ∷ ns) = n

abbrev pub observed_transition :
    Completed → List ActionEvent → List ObservedAction → Checkpoint → ObservedTransition
observed_transition c selected actions before = record {
  seq = first_seq (closed_seqs c);
  before = before;
  actions = actions;
  after = c.after;
  evidence = some (record {
    source = c.source;
    result_status = group_status (map (λ (e : ActionEvent). e.result.status) selected);
    result_reason = final_reason (last? selected);
    status = c.status;
    reason = c.reason;
    recipe_key = c.recipe_key;
    transition_actions = c.transition_actions;
    visual_change_ratio = c.visual_change_ratio;
    ocr_skipped = c.ocr_skipped;
    screenshot = c.screenshot;
    marked_image = c.marked_image;
  });
}

abbrev pub is_seq : Option ℕ → ℕ → Bool
is_seq none n = false
is_seq (some m) n = nat_eq n m

abbrev pub with_transition : Option ℕ → ObservedTransition → ActionEvent → ActionEvent
with_transition seq t e = if is_seq seq e.seq then record e { transition = some t } else e

-- The first selected event that has an action and a checkpoint.
abbrev pub first_checkpoint : List ActionEvent → Option Checkpoint
first_checkpoint [] = none
first_checkpoint (e ∷ es) =
    choose (is_some e.candidate_action) e.before_checkpoint (first_checkpoint es)
  where
    choose : Bool → Option Checkpoint → Option Checkpoint → Option Checkpoint
    choose true (some c) rest = some c
    choose _ _ rest = rest

abbrev pub attached :
    Completed
    → List ActionEvent
    → List ActionEvent
    → List ObservedAction
    → Option Checkpoint
    → List ActionEvent
attached c events selected actions none = events
attached c events selected [] (some before) = events
attached c events selected (action ∷ actions) (some before) =
    map (with_transition c.action_seq (observed_transition c selected (action ∷ actions) before))
      events

unfoldable pub attach_action_transition : List ActionEvent → Completed → List ActionEvent
unfolding closed_seqs group_status
attach_action_transition events c =
    let selected = selected_events (closed_seqs c) events in
    attached c events selected (collect_some (λ (e : ActionEvent). e.candidate_action) selected)
      (first_checkpoint selected)

-- A latest action group that had no effect: `actions` and the final one's `action` and `source`.
pub record NoEffect : Type 0 where
  pub action : String
  pub actions : List (String × Args)
  pub source : String
  pub reason : String

abbrev pub result_args : Args → Option ActionEvent → Args
result_args fallback none = fallback
result_args fallback (some e) = or_args e.result.args
  where
    or_args : Option Args → Args
    or_args none = fallback
    or_args (some args) = args

-- `events_by_seq.get(seq)`: the last event of a number.
abbrev pub event_by_seq : ℕ → List ActionEvent → Option ActionEvent
event_by_seq n events = last? (keep (λ (e : ActionEvent). nat_eq e.seq n) events)

abbrev pub executed_action : List ActionEvent → ObservedAction → String × Args
executed_action events a = (a.action, result_args a.args (event_by_seq a.source_seq events))

abbrev pub final_action : List (String × Args) → String
final_action [] = ""
final_action (a ∷ []) = a.0
final_action (a ∷ b ∷ rest) = final_action (b ∷ rest)

abbrev pub is_unknown_status : TransitionStatus → Bool
is_unknown_status unknown = true
is_unknown_status _ = false

abbrev pub had_no_effect : String → Evidence → Bool
had_no_effect latest_screen e =
    is_unknown_status e.status
    && (e.reason == "reflex_no_screen_change" || e.reason == "no_screen_change")
    && (is_empty latest_screen || is_empty e.screenshot || latest_screen == e.screenshot)

abbrev pub no_effect_of :
    String
    → List ActionEvent
    → ActionEvent
    → List ObservedAction
    → Option Evidence
    → Option NoEffect
no_effect_of screenshot events event actions none = none
no_effect_of screenshot events event actions (some evidence) =
    let executed = map (executed_action events) actions in
    if had_no_effect screenshot evidence
    then some (record {
      action = final_action executed;
      actions = executed;
      source = event.result.action_source;
      reason = evidence.reason;
    })
    else none

abbrev pub no_effect_event : String → List ActionEvent → Option ActionEvent → Option NoEffect
no_effect_event screenshot events none = none
no_effect_event screenshot events (some event) = of_transition event.transition
  where
    of_transition : Option ObservedTransition → Option NoEffect
    of_transition none = none
    of_transition (some t) = no_effect_of screenshot events event t.actions t.evidence

abbrev pub latest_no_effect : String → List ActionEvent → Option NoEffect
latest_no_effect screenshot events =
    no_effect_event screenshot events
      (last? (keep (λ (e : ActionEvent). is_some e.transition) events))

unfoldable pub latest_no_effect_transition : WorkerState → Option NoEffect
latest_no_effect_transition s =
    latest_no_effect s.observation.current_screenshot s.transition.action_events
