-- ===== src/Examples/Executions.antt =====
-- A click that the model requests on a page of search results, a new selection of cards, and tools
-- that work, that fail, or that do not go back.
use l2c.Common.{
  if◌then◌else◌, ℕ, ◌+◌, ◌≤◌, String, ◌≡◌, refl, true, none, some, List, [], ◌∷◌, Raises, raised,
  returned, arith,
}
use l2c.Common.Text.{strip, replace_char, casefold, normalize_text, to_lower}
use l2c.JobCards.Queue.{marker_by_id}
use l2c.Site.{normalize_page_role, looks_like_job_detail_url}
use l2c.Worker.State.{active, pending, no_args, ToolCall, ActionRequest, ActionEvent, WorkerState}
use l2c.Worker.Routing.{end, route_after_execution}
use l2c.Worker.Effect.{inspect_action_effect, complete_action_effect}
use l2c.Execution.Permission.{
  Value, text, nested, also, empty, opaque, normalized_text, task_permission_reason,
  build_public_collection_permission_contract,
}
use l2c.Execution.Contract.{texts, contract-authorizes}
use l2c.Execution.Context.{
  marker_bbox, ToolResult, lightweight, Env, Tools, Context, from_state, before_snapshot,
}
use l2c.Execution.Dispatch.{told, dispatch_ui_action}
use l2c.Execution.Run.{guard_action_request, execute_tool_call, execution_node}
use l2c.Execution.Numbered.{Extends, execution_node-Extends}
use l2c.Execution.Attached.{Attaches, IfUpdated, judging-Attaches}
use l2c.Execution.Permitted.{is_allowed, Agree, execution_node-Agree}
use l2c.Execution.Errors.{
  begun, count_of_errors, Reports, execution_node-failed, execution_node-failed_ends,
}
use l2c.Execution.Opened.{queue_after, has_succeeded, execute_tool_call-opens}
use l2c.JobCards.Queue.{active_job_card, pending_job_cards}
use l2c.JobCards.Select.{card_request}
use l2c.Examples.Cards.{card, markers, listing, waiting}
use l2c.Execution.StateActions.{state_action-keeps_errors}
use l2c.Examples.{ascii, sites}
use l2c.Examples.Actions.{screen, judged_state}

abbrev env : Env
env = record {
  sites = sites;
  hostname = λ url. url;
  url_template = λ url. url;
  has_roi = λ s args. true;
  mark_existing_job_cards = λ queue url. returned queue;
  job_review_request_mode = λ s url. returned lightweight;
}

abbrev answer : String → Raises ToolResult
answer action = returned (told action "success" "" "done")

abbrev working : Tools
working = record {
  click_marker = λ bbox. answer "click_marker";
  type_in_marker = λ bbox text. answer "type_in_marker";
  scroll = λ direction bbox amount. answer "scroll";
  press_key = λ key. answer "press_key";
  open_browser = λ url current. answer "open_browser";
  close_current_tab = answer "close_current_tab";
  switch_tab = λ direction. answer "switch_tab";
  go_back = answer "go_back";
  finish_task = λ result. answer "finish_task";
}

abbrev failing : Tools
failing = record working { click_marker = λ bbox. raised "no mouse" }

-- These tools raise where the others close a tab.
abbrev not_closing : Tools
not_closing = record working { close_current_tab = raised "no tab" }

abbrev click : ToolCall
click = record {
  name = "click_marker";
  call_id = "1";
  args = record no_args { marker_id = some 1; risk_level = "safe_navigation" };
  queue_id = "";
  transition_source = "";
}

abbrev requested : List ToolCall → ActionRequest
requested calls = record {
  source = "llm";
  observation_id = "o2";
  summary = "";
  tool_calls = calls;
  transition_actions = [];
  expected_effect = none;
  before_page_role = "";
}

abbrev event : ℕ → ActionEvent
event n = record {
  seq = n;
  result = record {
    action = "click_marker";
    status = "success";
    reason = "";
    error = "";
    args = some no_args;
    action_source = "reflex";
    recipe_key = "rule";
    before_url = "/list";
  };
  candidate_action = some (record {
    source_seq = n;
    action = "click_marker";
    args = no_args;
    slot = "";
    has_target = true;
    has_roi = true;
  });
  before_checkpoint =
      some (record { observation_id = "o1"; url_template = "/list"; page_role = "search" });
  transition = none;
}

abbrev history : List ActionEvent
history = event 0 ∷ event 1 ∷ []

-- A rule's second action waits for its judgement.
abbrev recorded : WorkerState
recorded = record judged_state {
  transition = record judged_state.transition { action_events = history };
}

abbrev about_to : List ToolCall → WorkerState
about_to calls = record recorded {
  permission = some (record { allowed_domains = "jobs" ∷ []; allowed_input_values = "qa" ∷ [] });
  decision = record { pending_action = some (requested calls) };
  transition = record recorded.transition { error_count = 2; transition_request = none };
}

execution_node-Extends_example :
    Extends history (execution_node env working (about_to (click ∷ []))).transition.action_events
execution_node-Extends_example = execution_node-Extends env working (about_to (click ∷ []))

judging-Attaches_example :
    Attaches (some 1) history (inspect_action_effect screen recorded).transition.action_events
    × IfUpdated
        (λ t. Attaches (some 1) history t.transition.action_events)
        (complete_action_effect screen recorded)
judging-Attaches_example = judging-Attaches screen recorded

-- No action of the history had no effect, so that no tab may be closed.
same_without_closing :
    Agree env (about_to (click ∷ [])) (requested (click ∷ [])) working not_closing
unfolding dispatch_ui_action is_allowed
same_without_closing = record {
  on_allowed = λ c name args h. ground arith;
  on_finish = λ result. refl;
}

execution_node-Agree_example :
    execution_node env working (about_to (click ∷ []))
    ≡ execution_node env not_closing (about_to (click ∷ []))
execution_node-Agree_example =
    execution_node-Agree env (about_to (click ∷ [])) (requested (click ∷ [])) working not_closing
      refl same_without_closing

execution_node-failed_example :
    (count_of_errors (execution_node env failing (about_to (click ∷ click ∷ []))) ≡ 2 + 1)
    × Reports "no mouse" history
        (execution_node env failing (about_to (click ∷ click ∷ []))).transition.action_events
unfolding begun guard_action_request normalize_page_role replace_char casefold normalize_text
    execute_tool_call to_lower marker_bbox marker_by_id
execution_node-failed_example =
    execution_node-failed env failing (about_to (click ∷ click ∷ []))
      (requested (click ∷ click ∷ [])) click (click ∷ []) "no mouse" refl refl refl refl

execution_node-failed_ends_example :
    route_after_execution (execution_node env failing (about_to (click ∷ []))) ≡ end
unfolding begun guard_action_request normalize_page_role replace_char casefold normalize_text
    execute_tool_call to_lower marker_bbox marker_by_id
execution_node-failed_ends_example =
    execution_node-failed_ends env failing (about_to (click ∷ [])) (requested (click ∷ [])) click []
      "no mouse" refl refl refl refl (omega arith)

abbrev select : ToolCall
select = record click { name = "set_job_card_queue"; args = no_args }

state_action-keeps_errors_example :
    2 ≤ count_of_errors (execution_node env working (about_to (select ∷ [])))
state_action-keeps_errors_example =
    state_action-keeps_errors env working (about_to (select ∷ [])) (requested (select ∷ [])) select
      refl refl refl

-- A search keyword beside a count.
abbrev intent : Value
intent = nested (also opaque (also (nested (also (text "qa engineer") empty)) empty))

contract-authorizes_example :
    task_permission_reason ascii
      (λ url. url)
      (some (build_public_collection_permission_contract ascii (λ keys. keys) ("jobs" ∷ []) intent))
      "type_in_marker"
      (record no_args { text = "qa engineer" })
      "reflex"
    ≡ ""
unfolding normalized_text texts
contract-authorizes_example =
    contract-authorizes ascii (λ url. url) (λ keys. keys) ("jobs" ∷ []) intent
      (record no_args { text = "qa engineer" }) "reflex" (λ key keys. refl) refl refl refl

abbrev clicking : Context
clicking = from_state (listing waiting) (card_request (card "card-2" pending) 1)

abbrev click_on_card : ToolCall
click_on_card = record {
  name = "click_marker";
  call_id = "job_card_queue_card-2";
  args = record no_args { marker_id = some 1; target_label = "backend" };
  queue_id = "card-2";
  transition_source = "";
}

execute_tool_call-opens_example :
    let outcome =
      execute_tool_call env working clicking click_on_card 0 (before_snapshot clicking) in
    active_job_card (queue_after outcome)
    ≡ (if has_succeeded outcome then some (card "card-2" active) else none)
unfolding active_job_card pending_job_cards looks_like_job_detail_url strip normalize_page_role
    replace_char casefold normalize_text from_state
execute_tool_call-opens_example =
    execute_tool_call-opens env working clicking 0 (before_snapshot clicking) markers
      (card_request (card "card-2" pending) 1) click_on_card
      (record {
        item = card "card-2" pending;
        others = [];
        marker = 1;
        waiting = refl;
        idle = refl;
        made = refl;
        visible = refl;
        read = refl;
        listed = refl;
        not_detail = refl;
      })
      refl refl refl refl
