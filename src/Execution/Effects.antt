-- ===== src/Execution/Effects.antt =====
-- agent/graph/worker_action_effects.py: what an executed action changes in the state.
use l2c.Common.{
  String, Bool, true, false, ◌&&◌, ◌||◌, not, Option, none, some, ◌==◌, if◌then◌else◌, Raises,
  raised, returned, ℕ,
}
use l2c.Common.Text.{Unicode, is_empty, or_text}
use l2c.Worker.State.{Args, ToolCall, Observation, WorkerState}
use l2c.JobCards.Queue.{job_card_queue_scope_complete}
use l2c.JobCards.Lifecycle.{activate_job_card, job_card_click_matches_queue}
use l2c.Execution.Policy.{is_direct_source, makes_url_stale}
use l2c.Execution.Context.{ToolResult, Env, Tools, Context, set_transition_request}
use l2c.Execution.Dispatch.{
  StateUpdate, StateActionOutcome, dispatch_ui_action, dispatch_state_action, apply_state_update,
}

-- A result that reports an error is an exception.
unfoldable pub raise_for_action_failure : ToolResult → Raises ToolResult
raise_for_action_failure r =
    if r.status == "error"
    then raised (or_text r.error (or_text r.result "action failed"))
    else returned r

abbrev pub checked : Raises ToolResult → Raises ToolResult
checked (raised error) = raised error
checked (returned r) = raise_for_action_failure r

-- How a call ends: blocked by a guard, with its result and whether the screen may have changed, or
-- with an exception.
pub data CallOutcome : Type 0 where
  blocked : Context → CallOutcome
  ran : Context → ToolResult → Bool → CallOutcome
  failed : Context → String → CallOutcome

abbrev pub with_state : Context → WorkerState → Context
with_state c s = record c { state = s }

abbrev pub screen_may_change : Context → String → ToolResult → Bool
screen_may_change c action_name r =
    not (action_name == "open_browser") || r.opened || is_empty c.state.observation.ui_context

abbrev pub observed_after : Context → String → Args → ToolResult → Observation
observed_after c action_name args r =
    let o = c.state.observation in
    if action_name == "open_browser"
    then record o {
      current_url = or_text r.url args.url;
      current_url_stale = screen_may_change c action_name r;
    }
    else record o { current_url_stale = o.current_url_stale || makes_url_stale action_name }

abbrev pub transition_source : Context → ToolCall → String
transition_source c call =
    or_text call.transition_source
      (if is_direct_source c.action_request.source then c.action_request.source else "autonomous")

abbrev pub performed : Context → ToolCall → ℕ → Raises ToolResult → CallOutcome
performed c call seq (raised error) = failed c error
performed c call seq (returned r) =
    let moved =
      with_state c (record c.state { observation = observed_after c call.name call.args r }) in
    let changed = screen_may_change c call.name r in
    ran
      (if changed
        then set_transition_request moved seq call.name call.args (transition_source c call)
        else moved)
      r changed

unfoldable pub execute_ui_action : Tools → Context → ToolCall → ℕ → CallOutcome
unfolding dispatch_ui_action raise_for_action_failure
execute_ui_action t c call seq =
    performed c call seq (checked (dispatch_ui_action t c call.name call.args))

unfoldable pub activate_clicked_job_card : Unicode → Context → ToolResult → ToolCall → Context
unfolding job_card_click_matches_queue activate_job_card
activate_clicked_job_card u c result call =
    let queue = c.state.collection.job_card_queue in
    if result.status == "success"
      && call.name == "click_marker"
      && job_card_click_matches_queue u queue call.queue_id
    then with_state c (record c.state {
      collection = record c.state.collection {
        job_card_queue = activate_job_card u queue call.queue_id;
      };
      stage = "opening_detail";
    })
    else c

abbrev pub activated : Unicode → ToolCall → CallOutcome → CallOutcome
activated u call (ran c result changed) =
    ran (activate_clicked_job_card u c result call) result changed
activated u call outcome = outcome

unfoldable pub apply_job_card_queue_completion : Unicode → WorkerState → WorkerState
unfolding job_card_queue_scope_complete
apply_job_card_queue_completion u s =
    if job_card_queue_scope_complete u s.collection.job_card_queue s.count_mode s.target_count
    then record s {
      lifecycle = record s.lifecycle {
        is_finished = true;
        completion_reason =
            (if s.count_mode == "visible_all" then "visible_scope_completed" else "target_reached");
      };
      stage = "finished";
    }
    else s

-- A state action puts a copy in the place of the context's state.
abbrev pub left : Context → Option WorkerState → WorkerState
left c none = c.state
left c (some s) = s

abbrev pub updated_context : Env → Context → String → StateUpdate → Context
updated_context e c action_name update =
    let s = apply_state_update c.state update in
    record c {
      state =
          (if action_name == "set_job_card_queue"
            then apply_job_card_queue_completion e.sites.unicode s
            else s);
      left_behind = some (left c c.left_behind);
    }

abbrev pub stored : Env → Context → String → StateUpdate → Raises ToolResult → CallOutcome
stored e c action_name update (raised error) = failed c error
stored e c action_name update (returned r) = ran (updated_context e c action_name update) r false

abbrev pub checked_update : Env → Context → String → Raises StateActionOutcome → CallOutcome
checked_update e c action_name (raised error) = failed c error
checked_update e c action_name (returned (result, update)) =
    stored e c action_name update (raise_for_action_failure result)

unfoldable pub execute_state_action : Env → Context → ToolCall → CallOutcome
unfolding raise_for_action_failure dispatch_state_action apply_state_update
    apply_job_card_queue_completion
execute_state_action e c call =
    checked_update e c call.name (dispatch_state_action e c.state call.name call.args)
