-- ===== src/Execution/Policy.antt =====
-- agent/runtime/worker_actions.py and agent/graph/worker_execution_policy.py: what may be executed
-- in one group, and what an execution repeats or must not do.
use l2c.Common.{
  ℕ, String, Bool, true, false, ◌&&◌, ◌||◌, not, Option, none, some, List, [], ◌∷◌, reverse, ◌==◌,
  nat_eq, first, collect_some, if◌then◌else◌,
}
use l2c.Common.Text.{Unicode, is_empty, strip, casefold, to_lower}
use l2c.Site.{normalize_page_role}
use l2c.Worker.State.{
  Args, no_args, ToolCall, ActionRequest, ObservedAction, Evidence, ObservedTransition,
  TransitionStatus, ready, ActionEvent, WorkerState,
}
use l2c.Worker.History.{NoEffect}
use l2c.Execution.Permission.{task_permission_reason}

-- `TARGET_REPLAY_ACTIONS`
abbrev pub is_target_action : String → Bool
is_target_action name = name == "click_marker" || name == "type_in_marker"

-- `STATE_UPDATE_ACTIONS`
abbrev pub is_state_action : String → Bool
is_state_action name = name == "review_job_detail" || name == "set_job_card_queue"

-- `URL_STALE_ACTIONS`, tested of a UI action.
abbrev pub makes_url_stale : String → Bool
makes_url_stale name = not (name == "type_in_marker") && not (name == "scroll")

-- `DIRECT_SCREEN_ACTION_SOURCES`
abbrev pub is_direct_source : String → Bool
is_direct_source source =
    source == "reflex"
    || source == "job_card_queue"
    || source == "job_results_navigation"
    || source == "page_policy"
    || source == "duplicate_job_policy"

abbrev pub is_ready : TransitionStatus → Bool
is_ready ready = true
is_ready _ = false

abbrev pub transitions_of : List ActionEvent → List ObservedTransition
transitions_of events = collect_some (λ (e : ActionEvent). e.transition) events

module _ (u : Unicode) where
  abbrev pub is_submit_key : String → Bool
  is_submit_key key = let k = casefold u (strip u key) in k == "enter" || k == "return"

  unfoldable pub is_supported_recipe_action_group : List ObservedAction → Bool
  is_supported_recipe_action_group [] = false
  is_supported_recipe_action_group (a ∷ []) =
      is_target_action a.action || (a.action == "scroll" && a.has_target && a.has_roi)
  is_supported_recipe_action_group (a ∷ b ∷ []) =
      a.action == "type_in_marker"
      && (b.action == "click_marker" || (b.action == "press_key" && is_submit_key b.args.key))
  is_supported_recipe_action_group (a ∷ b ∷ c ∷ rest) = false

  unfoldable pub is_supported_recipe_tool_group : List String → String → Bool
  is_supported_recipe_tool_group [] commit_key = false
  is_supported_recipe_tool_group (a ∷ []) commit_key = is_target_action a
  is_supported_recipe_tool_group (a ∷ b ∷ []) commit_key =
      a == "type_in_marker"
      && (b == "click_marker" || (b == "press_key" && is_submit_key commit_key))
  is_supported_recipe_tool_group (a ∷ b ∷ c ∷ rest) commit_key = false

  abbrev pub succeeded : Option Evidence → Bool
  succeeded none = false
  succeeded (some e) = e.result_status == "success" && is_ready e.status

  -- The text that a group of actions has put into a slot.
  abbrev pub typed_value : String → List ObservedAction → Option String
  typed_value slot_name [] = none
  typed_value slot_name (a ∷ rest) =
      if a.action == "type_in_marker" && a.slot == slot_name
      then some (strip u a.args.text)
      else none

  abbrev pub submitted_by : String → ObservedTransition → Option String
  submitted_by slot_name t =
      if succeeded t.evidence && is_supported_recipe_action_group t.actions
      then typed_value slot_name t.actions
      else none

  abbrev pub head_or_empty : List String → String
  head_or_empty [] = ""
  head_or_empty (v ∷ vs) = v

  unfoldable pub submitted_input_value : WorkerState → String → String
  unfolding is_supported_recipe_action_group
  submitted_input_value s slot_name =
      head_or_empty (
        collect_some (submitted_by slot_name) (reverse (transitions_of s.transition.action_events)))

  abbrev pub repeats_input : WorkerState → Option ToolCall → Bool
  repeats_input s none = false
  repeats_input s (some call) =
      let submitted = submitted_input_value s "search_keyword" in
      call.args.slot_name == "search_keyword"
      && not (is_empty submitted)
      && casefold u submitted == casefold u (strip u call.args.text)

  unfoldable pub repeats_submitted_input_request : WorkerState → ActionRequest → Bool
  unfolding submitted_input_value
  repeats_submitted_input_request s request =
      request.source == "llm"
      && normalize_page_role u s.observation.current_page_role == "search"
      && repeats_input s
          (first (λ (call : ToolCall). call.name == "type_in_marker") request.tool_calls)

  abbrev pub is_exempt : String → Bool
  is_exempt name =
      name == "close_current_tab" || name == "switch_tab" || name == "go_back" || name == "scroll"

  unfoldable pub blocked_action_reason :
      (String → String) → WorkerState → String → Args → String → String
  unfolding task_permission_reason
  blocked_action_reason hostname s action_name args source =
      let permission = task_permission_reason u hostname s.permission action_name args source in
      if not (is_empty permission)
      then permission
      else if is_exempt action_name
      then ""
      else if to_lower u (strip u args.risk_level) == "sensitive"
      then "tool_args_marked_sensitive"
      else ""

-- `before_snapshot`, which is `state_snapshot_for_action` at the current URL, its signature left
-- out.
pub record Snapshot : Type 0 where
  pub observation_id : String
  pub url : String

unfoldable pub state_snapshot_for_action : WorkerState → Snapshot
state_snapshot_for_action s = record {
  observation_id = s.observation.observation_id;
  url = s.observation.current_url;
}

unfoldable pub compact_action_args : String → Args → Args
compact_action_args action_name args = if is_state_action action_name then no_args else args

abbrev pub same_marker : Option ℕ → Option ℕ → Bool
same_marker none current = false
same_marker (some m) none = false
same_marker (some m) (some n) = nat_eq m n

-- The action and the arguments of the earlier attempt first.
unfoldable pub repeats_no_effect_target : String × Args → String → Args → Bool
repeats_no_effect_target (previous_action, previous) action_name args =
    previous_action == action_name
    && (if is_target_action action_name
        then same_marker previous.marker_id args.marker_id
        else if action_name == "press_key"
        then previous.key == args.key
        else if action_name == "switch_tab"
        then previous.direction == args.direction
        else if action_name == "open_browser"
        then not (is_empty previous.url) && previous.url == args.url
        else action_name == "go_back" || action_name == "close_current_tab")

abbrev pub all_repeated : List (String × Args) → List ToolCall → Bool
all_repeated [] [] = true
all_repeated (p ∷ ps) (call ∷ calls) =
    repeats_no_effect_target p call.name call.args && all_repeated ps calls
all_repeated _ _ = false

abbrev pub previous_actions : Option NoEffect → List (String × Args)
previous_actions none = []
previous_actions (some n) = n.actions

unfoldable pub repeats_no_effect_request : Option NoEffect → ActionRequest → Bool
unfolding repeats_no_effect_target
repeats_no_effect_request observation request =
    all_repeated (previous_actions observation) request.tool_calls
