-- ===== src/Execution/Numbered.antt =====
-- The numbers of the recorded events, over the execution of requests and the judgement of effects.
use l2c.Common.{
  ℕ, suc, ◌+◌, String, ◌≡◌, refl, sym, ◌∙◌, ap, subst, Bool, false, Option, none, some, List, [],
  ◌∷◌, ◌++◌, arith, length, ◌==◌, if_elim,
}
use l2c.Worker.State.{Args, ToolCall, ActionRequest, ActionEvent, TransitionRequest, WorkerState}
use l2c.Worker.Replay.{holds}
use l2c.Execution.Permission.{ui_actions}
use l2c.Execution.Policy.{Snapshot}
use l2c.Execution.Context.{
  ToolResult, Env, Tools, Context, from_state, next_action_sequence, before_snapshot, finish_state,
  waits_for_capture, record_action_result, set_transition_request,
}
use l2c.Execution.Effects.{CallOutcome, blocked, ran, failed}
use l2c.Execution.Run.{
  record_guard_result, guard_first, guard_action_request, guard_ui_action, settle, execute_one,
  execute_calls, unless_blocked, execute_action_request, missing_action_update, run_request,
  execute_pending, execution_node, guard_result, clear_errors, mark_failed, failed_rule,
  record_failed_call, failed_result,
}
use l2c.Execution.Keeps.{IfSome, none-IfSome, if-IfSome, KeepsOr, execute_tool_call-KeepsOr}

-- Each event bears the number of its place, from `n` on.
abbrev pub NumberedFrom : ℕ → List ActionEvent → Type 0
NumberedFrom n [] = Unit
NumberedFrom n (event ∷ events) = (event.seq ≡ n) × NumberedFrom (suc n) events

pub NumberedFrom-append :
    (n : ℕ) (events more : List ActionEvent)
    → NumberedFrom n events
    → NumberedFrom (n + length events) more
    → NumberedFrom n (events ++ more)
NumberedFrom-append n [] more h k = subst (λ m. NumberedFrom m more) (omega arith) k
NumberedFrom-append n (event ∷ events) more h k = (
  h.0,
  NumberedFrom-append (suc n) events more h.1 (subst (λ m. NumberedFrom m more) (omega arith) k),
)

-- Of a context: its earlier events, then its new ones.
abbrev pub ContextNumbered : List ActionEvent → Context → Type 0
ContextNumbered earlier c = (c.prior_events ≡ earlier) × NumberedFrom (length earlier) c.new_events

one_more :
    (n : ℕ) (events same : List ActionEvent) (event : ActionEvent)
    → same ≡ events
    → NumberedFrom n events
    → event.seq ≡ n + length events
    → NumberedFrom n (same ++ event ∷ [])
one_more n events same event h numbered seq =
    subst (λ xs. NumberedFrom n (xs ++ event ∷ [])) (sym h)
      (NumberedFrom-append n events (event ∷ []) numbered (seq, tt))

recorded-ContextNumbered :
    (e : Env) (earlier : List ActionEvent) (c d : Context) (name : String) (args : Args)
    (result : ToolResult) (before : Snapshot) (record_ui : Bool)
    → d.prior_events ≡ c.prior_events
    → d.new_events ≡ c.new_events
    → ContextNumbered earlier c
    → ContextNumbered earlier
        (record_action_result e d name args result before (next_action_sequence c) record_ui)
unfolding record_action_result next_action_sequence
recorded-ContextNumbered e earlier c d name args result before record_ui prior new
      (size, numbered) =
    (
      prior ∙ size,
      one_more (length earlier) c.new_events d.new_events _ new numbered
          (ap (λ events. length events + length c.new_events) size),
    )

guarded-ContextNumbered :
    (e : Env) (earlier : List ActionEvent) (c : Context) (name : String) (args : Args)
    (before : Snapshot) (status reason : String) (increments_error : Bool)
    → ContextNumbered earlier c
    → ContextNumbered earlier
        (record_guard_result e c name args before status reason increments_error)
unfolding record_guard_result
guarded-ContextNumbered e earlier c name args before status reason increments_error h =
    if_elim (ContextNumbered earlier) increments_error _ _
      (λ _.
        recorded-ContextNumbered e earlier c c name args (guard_result name status reason) before
          false refl refl h)
      (λ _.
        recorded-ContextNumbered e earlier c c name args (guard_result name status reason) before
          false refl refl h)

guard_ui_action-IfNumbered :
    (e : Env) (earlier : List ActionEvent) (c : Context) (name : String) (args : Args)
    (before : Snapshot)
    → ContextNumbered earlier c
    → IfSome (ContextNumbered earlier) (guard_ui_action e c name args before)
unfolding guard_ui_action
guard_ui_action-IfNumbered e earlier c name args before h =
    search (if-IfSome, none-IfSome, guarded-ContextNumbered)

guard_first-ContextNumbered :
    (e : Env) (earlier : List ActionEvent) (c : Context) (calls : List ToolCall) (reason : String)
    (error : Bool)
    → ContextNumbered earlier c
    → ContextNumbered earlier (guard_first e c calls reason error)
guard_first-ContextNumbered e earlier c [] reason error h = h
guard_first-ContextNumbered e earlier c (call ∷ calls) reason error h =
    guarded-ContextNumbered e earlier c call.name call.args _ _ reason error h

guard_action_request-IfNumbered :
    (e : Env) (earlier : List ActionEvent) (c : Context)
    → ContextNumbered earlier c
    → IfSome (ContextNumbered earlier) (guard_action_request e c)
unfolding guard_action_request
guard_action_request-IfNumbered e earlier c h =
    search (if-IfSome, none-IfSome, guard_first-ContextNumbered)

cleared-ContextNumbered :
    (earlier : List ActionEvent) (c : Context) (held : Option WorkerState)
    → ContextNumbered earlier c
    → ContextNumbered earlier (clear_errors c held)
cleared-ContextNumbered earlier c none h = h
cleared-ContextNumbered earlier c (some s) h = h

mark_failed-ContextNumbered :
    (earlier : List ActionEvent) (held : Option WorkerState) (c : Context)
    (request : Option TransitionRequest)
    → ContextNumbered earlier c
    → ContextNumbered earlier (mark_failed held c request)
mark_failed-ContextNumbered earlier none c none h = h
mark_failed-ContextNumbered earlier none c (some request) h = h
mark_failed-ContextNumbered earlier (some s) c none h = h
mark_failed-ContextNumbered earlier (some s) c (some request) h = h

failed_rule-ContextNumbered :
    (earlier : List ActionEvent) (c : Context) (call : ToolCall) (seq : ℕ)
    → ContextNumbered earlier c
    → ContextNumbered earlier (failed_rule c call seq)
unfolding set_transition_request
failed_rule-ContextNumbered earlier c call seq h =
    let d = set_transition_request c seq call.name call.args "reflex" in
    if_elim (ContextNumbered earlier) (c.action_request.source == "reflex") _ _
      (λ _.
        mark_failed-ContextNumbered earlier d.left_behind d d.state.transition.transition_request h)
      (λ _. h)

settle-ContextNumbered :
    (e : Env) (earlier : List ActionEvent) (c : Context) (call : ToolCall) (before : Snapshot)
    (o : CallOutcome)
    → ContextNumbered earlier c
    → KeepsOr (ContextNumbered earlier) c o
    → ContextNumbered earlier (settle e call (next_action_sequence c) before o).0
unfolding record_failed_call
settle-ContextNumbered e earlier c call before (blocked d) h k = k
settle-ContextNumbered e earlier c call before (ran d result changed) h k =
    let ui = holds call.name ui_actions in
    let seq = next_action_sequence c in
    let recorded = record_action_result e d call.name call.args result before seq ui in
    cleared-ContextNumbered earlier recorded recorded.left_behind
      (recorded-ContextNumbered e earlier c d call.name call.args result before ui k.prior k.new h)
settle-ContextNumbered e earlier c call before (failed d error) h k =
    let seq = next_action_sequence c in
    failed_rule-ContextNumbered earlier (record_failed_call e d call error seq) call seq (
      recorded-ContextNumbered e earlier c d call.name call.args (failed_result call.name error)
        (before_snapshot d) false (ap (λ x. x.prior_events) k) (ap (λ x. x.new_events) k) h)

execute_calls-ContextNumbered :
    (e : Env) (t : Tools) (earlier : List ActionEvent) (calls : List ToolCall) (c : Context)
    → ContextNumbered earlier c
    → ContextNumbered earlier (execute_calls e t calls c)
unfolding execute_calls
execute_calls-ContextNumbered e t earlier [] c h = h
execute_calls-ContextNumbered e t earlier (call ∷ calls) c h =
    let before = before_snapshot c in
    let next = settle-ContextNumbered e earlier c call before _ h (
      execute_tool_call-KeepsOr (ContextNumbered earlier) e t c call (next_action_sequence c) before
        (guard_ui_action-IfNumbered e earlier c call.name call.args before h)) in
    if_elim (ContextNumbered earlier) (execute_one e t c call).1 _ _
      (λ _. execute_calls-ContextNumbered e t earlier calls (execute_one e t c call).0 next)
      (λ _. next)

unblocked-ContextNumbered :
    (e : Env) (t : Tools) (earlier : List ActionEvent) (c : Context) (guarded : Option Context)
    → ContextNumbered earlier c
    → IfSome (ContextNumbered earlier) guarded
    → ContextNumbered earlier (unless_blocked e t c guarded)
unfolding IfSome
unblocked-ContextNumbered e t earlier c (some guarded) h k = k
unblocked-ContextNumbered e t earlier c none h k =
    execute_calls-ContextNumbered e t earlier c.action_request.tool_calls c h

execute_action_request-ContextNumbered :
    (e : Env) (t : Tools) (s : WorkerState) (request : ActionRequest)
    → ContextNumbered s.transition.action_events (execute_action_request e t (from_state s request))
unfolding execute_action_request from_state
execute_action_request-ContextNumbered e t s request =
    unblocked-ContextNumbered e t s.transition.action_events (from_state s request) _ (refl, tt)
      (guard_action_request-IfNumbered e s.transition.action_events (from_state s request)
        (refl, tt))

-- Events that are those of another state and, numbered on, more.
abbrev pub Extends : List ActionEvent → List ActionEvent → Type 0
Extends events longer =
    (more : List ActionEvent) × (longer ≡ events ++ more) × NumberedFrom (length events) more

pub waiting_events :
    (request : Option TransitionRequest) (s : WorkerState)
    → (waits_for_capture s request).transition.action_events ≡ s.transition.action_events
waiting_events none s = refl
waiting_events (some request) s = refl

finished-Extends :
    (s : WorkerState) (c : Context)
    → ContextNumbered s.transition.action_events c
    → Extends s.transition.action_events (finish_state c).transition.action_events
unfolding finish_state
finished-Extends s c h = (
  c.new_events,
  waiting_events c.state.transition.transition_request _ ∙ ap (λ xs. xs ++ c.new_events) h.0,
  h.1,
)

run-Extends :
    (e : Env) (t : Tools) (s : WorkerState) (request : ActionRequest) (calls : List ToolCall)
    → Extends s.transition.action_events (run_request e t s request calls).transition.action_events
unfolding missing_action_update
run-Extends e t s request [] = (_, refl, (refl, tt))
run-Extends e t s request (call ∷ calls) =
    finished-Extends s _ (execute_action_request-ContextNumbered e t s _)

pending-Extends :
    (e : Env) (t : Tools) (s : WorkerState) (request : Option ActionRequest)
    → Extends s.transition.action_events (execute_pending e t s request).transition.action_events
unfolding missing_action_update
pending-Extends e t s none = (_, refl, (refl, tt))
pending-Extends e t s (some request) = run-Extends e t s request request.tool_calls

-- The execution node loses no event: it appends events, numbered on from those that there were.
pub execution_node-Extends :
    (e : Env) (t : Tools) (s : WorkerState)
    → Extends s.transition.action_events (execution_node e t s).transition.action_events
unfolding execution_node
execution_node-Extends e t s = pending-Extends e t s s.decision.pending_action
