-- ===== src/Execution/Errors.antt =====
-- What an execution does to the count of errors that ends a worker.
use l2c.Common.{
  ℕ, ◌+◌, ◌≤◌, String, ◌≡◌, refl, ◌∙◌, ap, Option, none, some, List, [], ◌∷◌, ◌++◌, ◌==◌, arith,
  if_elim,
}
use l2c.Common.Text.{or_text}
use l2c.Worker.State.{ToolCall, ActionRequest, TransitionRequest, ActionEvent, WorkerState}
use l2c.Worker.Routing.{end, route_after_execution}
use l2c.Execution.Policy.{Snapshot}
use l2c.Execution.Context.{
  Env, Tools, Context, from_state, next_action_sequence, before_snapshot, finish_state,
  waits_for_capture, record_action_result, set_transition_request,
}
use l2c.Execution.Numbered.{waiting_events}
use l2c.Execution.Effects.{failed}
use l2c.Execution.Run.{
  guard_action_request, execute_tool_call, settle, record_failed_call, mark_failed, failed_rule,
  execute_calls, unless_blocked, execute_action_request, run_request, execute_pending,
  execution_node,
}

abbrev pub count_of_errors : WorkerState → ℕ
count_of_errors s = s.transition.error_count

-- The context in which a request's first call is executed.
unfoldable pub begun : WorkerState → ActionRequest → Context
unfolding from_state
begun s request = from_state s (record request {
  observation_id = or_text request.observation_id s.observation.observation_id;
})

waiting_errors :
    (request : Option TransitionRequest) (s : WorkerState)
    → count_of_errors (waits_for_capture s request) ≡ count_of_errors s
waiting_errors none s = refl
waiting_errors (some request) s = refl

pub finished_errors : (c : Context) → count_of_errors (finish_state c) ≡ count_of_errors c.state
unfolding finish_state
finished_errors c = waiting_errors c.state.transition.transition_request _

marked_errors :
    (held : Option WorkerState) (c : Context) (request : Option TransitionRequest)
    → count_of_errors (mark_failed held c request).state ≡ count_of_errors c.state
marked_errors none c none = refl
marked_errors none c (some request) = refl
marked_errors (some held) c none = refl
marked_errors (some held) c (some request) = refl

failed_rule_errors :
    (c : Context) (call : ToolCall) (seq : ℕ)
    → count_of_errors (failed_rule c call seq).state ≡ count_of_errors c.state
unfolding set_transition_request
failed_rule_errors c call seq =
    let d = set_transition_request c seq call.name call.args "reflex" in
    if_elim (λ (x : Context). count_of_errors x.state ≡ count_of_errors c.state)
      (c.action_request.source == "reflex") _ _
      (λ _. marked_errors d.left_behind d d.state.transition.transition_request) (λ _. refl)

recorded_failure_errors :
    (e : Env) (c : Context) (call : ToolCall) (error : String) (seq : ℕ)
    → count_of_errors (record_failed_call e c call error seq).state ≡ count_of_errors c.state + 1
unfolding record_failed_call record_action_result
recorded_failure_errors e c call error seq = refl

pub settled_errors :
    (e : Env) (call : ToolCall) (seq : ℕ) (before : Snapshot) (c : Context) (error : String)
    → count_of_errors (settle e call seq before (failed c error)).0.state
      ≡ count_of_errors c.state + 1
settled_errors e call seq before c error =
    failed_rule_errors (record_failed_call e c call error seq) call seq
    ∙ recorded_failure_errors e c call error seq

-- One event more, which reports the error.
abbrev pub Reports : String → List ActionEvent → List ActionEvent → Type 0
Reports error events longer =
    (event : ActionEvent) × (longer ≡ events ++ event ∷ [])
    × (event.result.status ≡ "error")
    × (event.result.error ≡ error)

marked_events :
    (held : Option WorkerState) (c : Context) (request : Option TransitionRequest)
    → ((mark_failed held c request).prior_events ≡ c.prior_events)
      × ((mark_failed held c request).new_events ≡ c.new_events)
marked_events none c none = (refl, refl)
marked_events none c (some request) = (refl, refl)
marked_events (some held) c none = (refl, refl)
marked_events (some held) c (some request) = (refl, refl)

failed_rule_events :
    (c : Context) (call : ToolCall) (seq : ℕ)
    → ((failed_rule c call seq).prior_events ≡ c.prior_events)
      × ((failed_rule c call seq).new_events ≡ c.new_events)
unfolding set_transition_request
failed_rule_events c call seq =
    let d = set_transition_request c seq call.name call.args "reflex" in
    if_elim (λ (x : Context). (x.prior_events ≡ c.prior_events) × (x.new_events ≡ c.new_events))
      (c.action_request.source == "reflex") _ _
      (λ _. marked_events d.left_behind d d.state.transition.transition_request) (λ _. (refl, refl))

failed_first :
    (e : Env) (t : Tools) (s : WorkerState) (request : ActionRequest) (call : ToolCall)
    (calls : List ToolCall) (error : String)
    → (let c = begun s request in
        execute_tool_call e t c call (next_action_sequence c) (before_snapshot c) ≡ failed c error)
    → (let d = execute_calls e t (call ∷ calls) (begun s request) in
        (count_of_errors d.state ≡ count_of_errors s + 1)
        × Reports error s.transition.action_events (d.prior_events ++ d.new_events))
unfolding execute_calls record_failed_call record_action_result begun
failed_first e t s request call calls error h =
    let c = begun s request in
    let seq = next_action_sequence c in
    let d = failed_rule (record_failed_call e c call error seq) call seq in
    let kept = failed_rule_events (record_failed_call e c call error seq) call seq in
    rw h (
      settled_errors e call seq (before_snapshot c) c error,
      (
        _,
        ap (λ events. events ++ d.new_events) kept.0
            ∙ ap (λ events. s.transition.action_events ++ events) kept.1,
        refl,
        refl,
      ),
    )

unblocked_node :
    (e : Env) (t : Tools) (s : WorkerState) (request : ActionRequest) (call : ToolCall)
    (calls : List ToolCall)
    → s.decision.pending_action ≡ some request
    → request.tool_calls ≡ call ∷ calls
    → guard_action_request e (begun s request) ≡ none
    → execution_node e t s ≡ finish_state (execute_calls e t (call ∷ calls) (begun s request))
unfolding execution_node execute_action_request begun
unblocked_node e t s request call calls h k free =
    let c = begun s request in
    ap (execute_pending e t s) h
    ∙ ap (run_request e t s request) k
    ∙ ap (λ g. finish_state (unless_blocked e t c g)) free
    ∙ ap (λ rest. finish_state (execute_calls e t rest c)) k

finished_events :
    (c : Context) → (finish_state c).transition.action_events ≡ c.prior_events ++ c.new_events
unfolding finish_state
finished_events c = waiting_events c.state.transition.transition_request _

-- Where no guard blocks a pending request and its first call raises, the execution adds one error
-- and one event, which reports it, and executes nothing of the rest.
pub execution_node-failed :
    (e : Env) (t : Tools) (s : WorkerState) (request : ActionRequest) (call : ToolCall)
    (calls : List ToolCall) (error : String)
    → s.decision.pending_action ≡ some request
    → request.tool_calls ≡ call ∷ calls
    → guard_action_request e (begun s request) ≡ none
    → (let c = begun s request in
        execute_tool_call e t c call (next_action_sequence c) (before_snapshot c) ≡ failed c error)
    → (count_of_errors (execution_node e t s) ≡ count_of_errors s + 1)
      × Reports error s.transition.action_events (execution_node e t s).transition.action_events
execution_node-failed e t s request call calls error h k free fails =
    let node = unblocked_node e t s request call calls h k free in
    let d = execute_calls e t (call ∷ calls) (begun s request) in
    let (counted, (event, appended, status, reported)) =
      failed_first e t s request call calls error fails in
    (
      ap count_of_errors node ∙ finished_errors d ∙ counted,
      (
        event,
        ap (λ (x : WorkerState). x.transition.action_events) node ∙ finished_events d ∙ appended,
        status,
        reported,
      ),
    )

-- With two errors before it, such an execution ends the worker: no guard blocks the pending
-- request, and its first call raises.
pub execution_node-failed_ends :
    (e : Env) (t : Tools) (s : WorkerState) (request : ActionRequest) (call : ToolCall)
    (calls : List ToolCall) (error : String)
    → s.decision.pending_action ≡ some request
    → request.tool_calls ≡ call ∷ calls
    → guard_action_request e (begun s request) ≡ none
    → (let c = begun s request in
        execute_tool_call e t c call (next_action_sequence c) (before_snapshot c) ≡ failed c error)
    → 2 ≤ count_of_errors s
    → route_after_execution (execution_node e t s) ≡ end
unfolding route_after_execution
execution_node-failed_ends e t s request call calls error h k free fails two =
    let counted = (execution_node-failed e t s request call calls error h k free fails).0 in
    ground arith
