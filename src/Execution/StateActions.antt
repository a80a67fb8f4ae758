-- ===== src/Execution/StateActions.antt =====
-- What the execution of a state action does to the count of errors: the loop of
-- agent/graph/worker_execution.py clears the count in a state that the action has left behind.
use l2c.Common.{
  ℕ, ◌≤◌, String, ◌≡◌, refl, sym, ◌∙◌, ap, subst, Bool, true, false, Option, none, some, List, [],
  ◌∷◌, ◌==◌, arith, inl, inr, ==→≡, is_some, Bool-cases, if_elim, Raises, raised, returned,
}
use l2c.Worker.State.{Args, ToolCall, ActionRequest, WorkerState}
use l2c.Worker.Replay.{holds}
use l2c.Execution.Permission.{ui_actions}
use l2c.Execution.Policy.{is_state_action, Snapshot}
use l2c.Execution.Context.{
  Env, Tools, Context, next_action_sequence, before_snapshot, ToolResult, record_action_result,
}
use l2c.Execution.Dispatch.{
  StateUpdate, unchanged_state, stored_queue, requested_review, StateActionOutcome,
  dispatch_state_action, apply_state_update,
}
use l2c.Execution.Keeps.{IfSome, if-IfSome, none-IfSome}
use l2c.Execution.Effects.{
  stored, checked_update, raise_for_action_failure, apply_job_card_queue_completion, CallOutcome,
  blocked, ran, failed, execute_state_action,
}
use l2c.Execution.Run.{
  record_guard_result, guard_first, guard_action_request, execute_tool_call, settle, execute_one,
  execute_calls, unless_blocked, execute_action_request, run_request, execute_pending,
  execution_node,
}
use l2c.Execution.Errors.{count_of_errors, begun, finished_errors, settled_errors}

-- What a state action leaves: the count of errors, and a state that the loop no longer holds.
abbrev pub Copied : Context → CallOutcome → Type 0
Copied c (blocked d) = ⊥
Copied c (ran d result changed) =
    (is_some d.left_behind ≡ true) × (count_of_errors d.state ≡ count_of_errors c.state)
Copied c (failed d error) = d ≡ c

stored-Copied :
    (e : Env) (c : Context) (name : String) (update : StateUpdate) (r : Raises ToolResult)
    → Copied c (stored e c name update r)
unfolding apply_state_update apply_job_card_queue_completion
stored-Copied e c name update (raised error) = refl
stored-Copied e c name unchanged_state (returned r) = ground arith
stored-Copied e c name (stored_queue queue) (returned r) = ground arith
stored-Copied e c name requested_review (returned r) = ground arith

checked_update-Copied :
    (e : Env) (c : Context) (name : String) (r : Raises StateActionOutcome)
    → Copied c (checked_update e c name r)
checked_update-Copied e c name (raised error) = refl
checked_update-Copied e c name (returned (result, update)) =
    stored-Copied e c name update (raise_for_action_failure result)

state_action_no_ui : (name : String) → is_state_action name ≡ true → holds name ui_actions ≡ false
state_action_no_ui name h = elim (Bool-cases (name == "review_job_detail")) [
  | inl review ↦
      subst (λ n. holds n ui_actions ≡ false) (sym (==→≡ name "review_job_detail" review)) refl
  | inr other ↦
      subst (λ n. holds n ui_actions ≡ false) (sym (==→≡ name "set_job_card_queue" (ground arith)))
        refl
]

state_action-Copied :
    (e : Env) (t : Tools) (c : Context) (call : ToolCall) (seq : ℕ) (before : Snapshot)
    → is_state_action call.name ≡ true
    → Copied c (execute_tool_call e t c call seq before)
unfolding execute_tool_call execute_state_action
state_action-Copied e t c call seq before h =
    rw (state_action_no_ui call.name h, h)
      (checked_update-Copied e c call.name (dispatch_state_action e c.state call.name call.args))

settled_copy :
    (e : Env) (c : Context) (call : ToolCall) (seq : ℕ) (before : Snapshot) (o : CallOutcome)
    → Copied c o
    → count_of_errors c.state ≤ count_of_errors (settle e call seq before o).0.state
unfolding record_action_result
settled_copy e c call seq before (blocked d) h = elim h [ ]
settled_copy e c call seq before (failed d error) h =
    let same = ap (λ (x : Context). count_of_errors x.state) h in
    let added = settled_errors e call seq before d error in omega (arith, same, added)
settled_copy e c call seq before (ran d result changed) h = ground arith

guarded_errors :
    (e : Env) (c : Context) (name : String) (args : Args) (before : Snapshot)
    (status reason : String) (increments_error : Bool)
    → count_of_errors c.state
      ≤ count_of_errors
          (record_guard_result e c name args before status reason increments_error).state
unfolding record_guard_result record_action_result
guarded_errors e c name args before status reason increments_error = ground arith

AtLeast : ℕ → Context → Type 0
AtLeast n c = n ≤ count_of_errors c.state

guarded_first_errors :
    (e : Env) (c : Context) (calls : List ToolCall) (reason : String) (increments_error : Bool)
    → AtLeast (count_of_errors c.state) (guard_first e c calls reason increments_error)
unfolding AtLeast
guarded_first_errors e c [] reason increments_error = omega arith
guarded_first_errors e c (call ∷ calls) reason increments_error =
    guarded_errors e c call.name call.args _ "skipped" reason increments_error

guard_errors :
    (e : Env) (c : Context) → IfSome (AtLeast (count_of_errors c.state)) (guard_action_request e c)
unfolding guard_action_request
guard_errors e c = search (if-IfSome, none-IfSome, guarded_first_errors)

one_state_action :
    (e : Env) (t : Tools) (c : Context) (call : ToolCall)
    → is_state_action call.name ≡ true
    → AtLeast (count_of_errors c.state) (execute_calls e t (call ∷ []) c)
unfolding execute_calls AtLeast
one_state_action e t c call h =
    let seq = next_action_sequence c in
    let before = before_snapshot c in
    let one = execute_one e t c call in
    let more =
      settled_copy e c call seq before (execute_tool_call e t c call seq before)
        (state_action-Copied e t c call seq before h) in
    if_elim (AtLeast (count_of_errors c.state)) one.1 one.0 one.0 (λ _. more) (λ _. more)

guarded_or_one :
    (e : Env) (t : Tools) (c : Context) (call : ToolCall) (guarded : Option Context)
    → c.action_request.tool_calls ≡ call ∷ []
    → is_state_action call.name ≡ true
    → IfSome (AtLeast (count_of_errors c.state)) guarded
    → AtLeast (count_of_errors c.state) (unless_blocked e t c guarded)
unfolding IfSome
guarded_or_one e t c call (some d) k h g = g
guarded_or_one e t c call none k h g =
    subst (λ calls. AtLeast (count_of_errors c.state) (execute_calls e t calls c)) (sym k)
      (one_state_action e t c call h)

-- An execution of a single state action (a review or a new selection of cards) never lowers the
-- count of errors, whether it succeeds or not.
pub state_action-keeps_errors :
    (e : Env) (t : Tools) (s : WorkerState) (request : ActionRequest) (call : ToolCall)
    → s.decision.pending_action ≡ some request
    → request.tool_calls ≡ call ∷ []
    → is_state_action call.name ≡ true
    → count_of_errors s ≤ count_of_errors (execution_node e t s)
unfolding execution_node execute_action_request begun AtLeast
state_action-keeps_errors e t s request call h k state_action =
    let c = begun s request in
    let d = execute_action_request e t c in
    let more =
      guarded_or_one e t c call (guard_action_request e c) k state_action (guard_errors e c) in
    let node = ap (execute_pending e t s) h ∙ ap (run_request e t s request) k in
    subst (λ n. count_of_errors s ≤ n) (sym (ap count_of_errors node ∙ finished_errors d)) more
