-- ===== src/Execution/Run.antt =====
-- agent/graph/worker_action_guard.py and agent/graph/worker_execution.py: the guards before a
-- physical action, the loop over the calls of a request, and the node.
use l2c.Common.{
  ℕ, ◌+◌, String, Bool, true, false, ◌&&◌, not, Option, none, some, List, [], ◌∷◌, ◌++◌, ◌==◌,
  length, if◌then◌else◌, Raises, raised, returned,
}
use l2c.Common.Text.{is_empty, or_text, append}
use l2c.Worker.State.{Args, no_args, ToolCall, ActionRequest, TransitionRequest, WorkerState}
use l2c.Worker.Replay.{holds}
use l2c.Worker.History.{NoEffect, latest_no_effect_transition}
use l2c.Execution.Permission.{ui_actions}
use l2c.Execution.Policy.{
  is_state_action, Snapshot, repeats_submitted_input_request, repeats_no_effect_request,
  blocked_action_reason,
}
use l2c.Execution.Context.{
  ToolResult, Env, Tools, Context, from_state, next_action_sequence, before_snapshot, finish_state,
  record_action_result, with_request, set_transition_request,
}
use l2c.Execution.Dispatch.{told}
use l2c.Execution.Effects.{
  checked, CallOutcome, blocked, ran, failed, with_state, left, execute_ui_action, activated,
  execute_state_action,
}

abbrev pub with_errors : WorkerState → ℕ → WorkerState
with_errors s n = record s { transition = record s.transition { error_count = n } }

abbrev pub add_error : Context → Context
add_error c = with_state c (with_errors c.state (c.state.transition.error_count + 1))

abbrev pub guard_result : String → String → String → ToolResult
guard_result action status reason = record (told action status reason "") {
  error =
      (if status == "error"
        then "Blocked action outside the public job collection policy."
        else "");
}

-- `_record_guard_result`
unfoldable pub record_guard_result :
    Env → Context → String → Args → Snapshot → String → String → Bool → Context
unfolding record_action_result
record_guard_result e c action_name args before status reason increments_error =
    let recorded =
      record_action_result e c action_name args (guard_result action_name status reason) before
        (next_action_sequence c) false in
    if increments_error then add_error recorded else recorded

abbrev pub guard_first : Env → Context → List ToolCall → String → Bool → Context
guard_first e c [] reason increments_error = c
guard_first e c (call ∷ calls) reason increments_error =
    record_guard_result e c call.name call.args (before_snapshot c) "skipped" reason
      increments_error

-- The context after a request that is blocked as a whole, or nothing.
unfoldable pub guard_action_request : Env → Context → Option Context
unfolding repeats_submitted_input_request repeats_no_effect_request latest_no_effect_transition
guard_action_request e c =
    let request = c.action_request in
    if repeats_submitted_input_request e.sites.unicode c.state request
    then some (guard_first e c request.tool_calls "search_query_already_submitted" false)
    else if repeats_no_effect_request (latest_no_effect_transition c.state) request
    then some (guard_first e c request.tool_calls "same_screen_no_effect_action_blocked" true)
    else none

abbrev pub went_back : Option NoEffect → Bool
went_back none = false
went_back (some n) = n.action == "go_back"

-- The context after an action that is blocked, or nothing.
unfoldable pub guard_ui_action : Env → Context → String → Args → Snapshot → Option Context
unfolding blocked_action_reason latest_no_effect_transition record_guard_result
guard_ui_action e c action_name args before =
    let reason =
      blocked_action_reason e.sites.unicode e.hostname c.state action_name args
        c.action_request.source in
    if not (is_empty reason)
    then some (record_guard_result e c action_name args before "error" reason true)
    else if action_name == "close_current_tab"
        && not (went_back (latest_no_effect_transition c.state))
    then some (
        record_guard_result e c action_name args before "skipped"
          "close_tab_requires_failed_go_back" true)
    else none

abbrev pub completion_of : String → String
completion_of source =
    if source == "reasoning_policy"
    then "reasoning_limit"
    else if source == "screen_policy"
    then "screen_unavailable"
    else "agent_finished"

abbrev pub finished_call : Context → Raises ToolResult → CallOutcome
finished_call c (raised error) = failed c error
finished_call c (returned r) =
    ran
      (with_state c (record c.state {
        lifecycle = record c.state.lifecycle {
          is_finished = true;
          completion_reason = completion_of c.action_request.source;
        };
        stage = "finished";
      }))
      r false

abbrev pub unless_guarded : Env → Tools → Context → ToolCall → ℕ → Option Context → CallOutcome
unless_guarded e t c call seq (some guarded) = blocked guarded
unless_guarded e t c call seq none = activated e.sites.unicode call (execute_ui_action t c call seq)

unfoldable pub execute_tool_call : Env → Tools → Context → ToolCall → ℕ → Snapshot → CallOutcome
unfolding guard_ui_action execute_ui_action execute_state_action
execute_tool_call e t c call seq before =
    if holds call.name ui_actions
    then unless_guarded e t c call seq (guard_ui_action e c call.name call.args before)
    else if is_state_action call.name
    then execute_state_action e c call
    else if call.name == "finish_task"
    then finished_call c (checked (t.finish_task call.args.result))
    else failed c (append "Unknown tool: " call.name)

abbrev pub failed_result : String → String → ToolResult
failed_result action error = record (told action "error" "" "") { error = error }

-- `_record_failed_call`
unfoldable pub record_failed_call : Env → Context → ToolCall → String → ℕ → Context
unfolding record_action_result
record_failed_call e c call error seq = add_error (
    record_action_result e c call.name call.args (failed_result call.name error) (before_snapshot c)
      seq false)

abbrev pub mark_failed : Option WorkerState → Context → Option TransitionRequest → Context
mark_failed none c (some r) = with_request c (record r { execution_failed = true })
mark_failed _ c _ = c

-- A replayed rule's failure is judged as well. The flag reaches the new request only while the loop
-- still holds the context's state.
abbrev pub failed_rule : Context → ToolCall → ℕ → Context
failed_rule c call seq =
    let d = set_transition_request c seq call.name call.args "reflex" in
    if c.action_request.source == "reflex"
    then mark_failed d.left_behind d d.state.transition.transition_request
    else c

-- `state["transition"]["error_count"] = 0`, on the state that the loop holds.
abbrev pub clear_errors : Context → Option WorkerState → Context
clear_errors c none = with_state c (with_errors c.state 0)
clear_errors c (some s) = record c { left_behind = some (with_errors s 0) }

-- The context after a call, and whether the loop goes on.
abbrev pub settle : Env → ToolCall → ℕ → Snapshot → CallOutcome → Context × Bool
settle e call seq before (blocked c) = (c, false)
settle e call seq before (failed c error) =
    (failed_rule (record_failed_call e c call error seq) call seq, false)
settle e call seq before (ran c result changed) =
    let recorded =
      record_action_result e c call.name call.args result before seq (holds call.name ui_actions) in
    let cleared = clear_errors recorded recorded.left_behind in
    (cleared, not ((left cleared cleared.left_behind).lifecycle.is_finished))

abbrev pub execute_one : Env → Tools → Context → ToolCall → Context × Bool
execute_one e t c call =
    let seq = next_action_sequence c in
    let before = before_snapshot c in
    settle e call seq before (execute_tool_call e t c call seq before)

unfoldable pub execute_calls : Env → Tools → List ToolCall → Context → Context
unfolding execute_tool_call record_failed_call set_transition_request record_action_result
execute_calls e t [] c = c
execute_calls e t (call ∷ calls) c =
    let (next, goes_on) = execute_one e t c call in
    let rest = execute_calls e t calls next in if goes_on then rest else next

abbrev pub unless_blocked : Env → Tools → Context → Option Context → Context
unless_blocked e t c (some guarded) = guarded
unless_blocked e t c none = execute_calls e t c.action_request.tool_calls c

unfoldable pub execute_action_request : Env → Tools → Context → Context
unfolding guard_action_request execute_calls
execute_action_request e t c = unless_blocked e t c (guard_action_request e c)

abbrev pub source_of : Option ActionRequest → String
source_of none = "unknown"
source_of (some request) = request.source

unfoldable pub missing_action_update : WorkerState → Option ActionRequest → WorkerState
missing_action_update s request = record s {
  decision = record s.decision { pending_action = none };
  transition = record s.transition {
    action_events =
        s.transition.action_events
        ++ (record {
          seq = length s.transition.action_events;
          result = record {
            action = "none";
            status = "error";
            reason = "";
            error = "No validated action request";
            args = some no_args;
            action_source = source_of request;
            recipe_key = "";
            before_url = "";
          };
          candidate_action = none;
          before_checkpoint = none;
          transition = none;
        })
          ∷ [];
  };
}

abbrev pub run_request : Env → Tools → WorkerState → ActionRequest → List ToolCall → WorkerState
run_request e t s request [] = missing_action_update s (some request)
run_request e t s request (call ∷ calls) =
    let named = record request {
      observation_id = or_text request.observation_id s.observation.observation_id;
    } in
    finish_state (execute_action_request e t (from_state s named))

abbrev pub execute_pending : Env → Tools → WorkerState → Option ActionRequest → WorkerState
execute_pending e t s none = missing_action_update s none
execute_pending e t s (some request) = run_request e t s request request.tool_calls

unfoldable pub execution_node : Env → Tools → WorkerState → WorkerState
unfolding missing_action_update finish_state execute_action_request from_state
execution_node e t s = execute_pending e t s s.decision.pending_action
