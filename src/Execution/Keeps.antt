-- ===== src/Execution/Keeps.antt =====
-- What every call of a request leaves alone: the events that are recorded already, and what the
-- guards read.
use l2c.Common.{
  ℕ, String, ◌≡◌, Bool, true, false, Option, none, some, arith, if_elim, if◌then◌else◌, ◌==◌,
  Raises, raised, returned,
}
use l2c.Worker.State.{ToolCall}
use l2c.Worker.Replay.{holds}
use l2c.Execution.Permission.{ui_actions}
use l2c.Execution.Policy.{is_state_action, Snapshot}
use l2c.Execution.Context.{ToolResult, Env, Tools, Context, set_transition_request}
use l2c.Execution.Dispatch.{
  StateUpdate, unchanged_state, stored_queue, requested_review, StateActionOutcome,
  dispatch_ui_action, dispatch_state_action, apply_state_update,
}
use l2c.Execution.Effects.{
  checked, CallOutcome, blocked, ran, failed, performed, execute_ui_action,
  activate_clicked_job_card, activated, apply_job_card_queue_completion, stored, checked_update,
  execute_state_action, raise_for_action_failure,
}
use l2c.Execution.Run.{guard_ui_action, unless_guarded, finished_call, execute_tool_call}

-- The events of a context are those of another, and so is what the guards read.
pub record Keeps (c d : Context) : Type 0 where
  pub request : d.action_request ≡ c.action_request
  pub prior : d.prior_events ≡ c.prior_events
  pub new : d.new_events ≡ c.new_events
  pub permission : d.state.permission ≡ c.state.permission
  pub history : d.state.transition.action_events ≡ c.state.transition.action_events
  pub screen : d.state.observation.current_screenshot ≡ c.state.observation.current_screenshot

-- What holds of the context of a guard that blocks.
unfoldable pub IfSome : (Context → Type 0) → Option Context → Type 0
IfSome P none = Unit
IfSome P (some c) = P c

pub none-IfSome : (P : Context → Type 0) → IfSome P none
unfolding IfSome
none-IfSome P = tt

pub if-IfSome :
    (P : Context → Type 0) (b : Bool) (c : Context) (o : Option Context)
    → P c
    → IfSome P o
    → IfSome P (if b then some c else o)
unfolding IfSome
if-IfSome P true c o h k = h
if-IfSome P false c o h k = k

-- Of a call: `P` if it was blocked. One that fails leaves the context as it was.
abbrev pub KeepsOr : (Context → Type 0) → Context → CallOutcome → Type 0
KeepsOr P c (blocked d) = P d
KeepsOr P c (ran d result changed) = Keeps c d
KeepsOr P c (failed d error) = d ≡ c

performed-KeepsOr :
    (P : Context → Type 0) (c : Context) (call : ToolCall) (seq : ℕ) (r : Raises ToolResult)
    → KeepsOr P c (performed c call seq r)
unfolding set_transition_request
performed-KeepsOr P c call seq (raised error) = ground arith
performed-KeepsOr P c call seq (returned r) = ground arith

activated-KeepsOr :
    (P : Context → Type 0) (e : Env) (c : Context) (call : ToolCall) (o : CallOutcome)
    → KeepsOr P c o
    → KeepsOr P c (activated e.sites.unicode call o)
unfolding activate_clicked_job_card
activated-KeepsOr P e c call (blocked d) h = h
activated-KeepsOr P e c call (failed d error) h = h
activated-KeepsOr P e c call (ran d result changed) h = ground arith

apply-KeepsOr :
    (P : Context → Type 0) (e : Env) (c : Context) (name : String) (update : StateUpdate)
    (r : Raises ToolResult)
    → KeepsOr P c (stored e c name update r)
unfolding apply_state_update apply_job_card_queue_completion
apply-KeepsOr P e c name update (raised error) = ground arith
apply-KeepsOr P e c name unchanged_state (returned r) = ground arith
apply-KeepsOr P e c name (stored_queue queue) (returned r) = ground arith
apply-KeepsOr P e c name requested_review (returned r) = ground arith

checked_update-KeepsOr :
    (P : Context → Type 0) (e : Env) (c : Context) (name : String) (r : Raises StateActionOutcome)
    → KeepsOr P c (checked_update e c name r)
checked_update-KeepsOr P e c name (raised error) = ground arith
checked_update-KeepsOr P e c name (returned (result, update)) =
    apply-KeepsOr P e c name update (raise_for_action_failure result)

finished_call-KeepsOr :
    (P : Context → Type 0) (c : Context) (r : Raises ToolResult) → KeepsOr P c (finished_call c r)
finished_call-KeepsOr P c (raised error) = ground arith
finished_call-KeepsOr P c (returned r) = ground arith

unless_guarded-KeepsOr :
    (P : Context → Type 0) (e : Env) (t : Tools) (c : Context) (call : ToolCall) (seq : ℕ)
    (g : Option Context)
    → IfSome P g
    → KeepsOr P c (unless_guarded e t c call seq g)
unfolding execute_ui_action IfSome
unless_guarded-KeepsOr P e t c call seq (some guarded) h = h
unless_guarded-KeepsOr P e t c call seq none h =
    activated-KeepsOr P e c call (execute_ui_action t c call seq)
      (performed-KeepsOr P c call seq (checked (dispatch_ui_action t c call.name call.args)))

pub execute_tool_call-KeepsOr :
    (P : Context → Type 0) (e : Env) (t : Tools) (c : Context) (call : ToolCall) (seq : ℕ)
    (before : Snapshot)
    → IfSome P (guard_ui_action e c call.name call.args before)
    → KeepsOr P c (execute_tool_call e t c call seq before)
unfolding execute_tool_call execute_state_action
execute_tool_call-KeepsOr P e t c call seq before h =
    if_elim (KeepsOr P c) (holds call.name ui_actions) _ _
      (λ _.
        unless_guarded-KeepsOr P e t c call seq (guard_ui_action e c call.name call.args before) h)
      (λ _.
        if_elim (KeepsOr P c) (is_state_action call.name) _ _
          (λ _.
            checked_update-KeepsOr P e c call.name
              (dispatch_state_action e c.state call.name call.args))
          (λ _.
            if_elim (KeepsOr P c) (call.name == "finish_task") _ _
              (λ _. finished_call-KeepsOr P c (checked (t.finish_task call.args.result)))
              (λ _. ground arith)))
