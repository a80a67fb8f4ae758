-- ===== src/Execution/Permitted.antt =====
-- Which calls of a request reach the physical tools: what tools do on other calls cannot show.
use l2c.Common.{
  ℕ, String, ◌≡◌, refl, sym, ◌∙◌, ap, Bool, true, false, ◌&&◌, ◌||◌, not, Option, none, some, List,
  [], ◌∷◌, ◌==◌, arith, if◌then◌else◌,
}
use l2c.Common.Text.{is_empty, or_text}
use l2c.Worker.State.{Args, ToolCall, ActionRequest, WorkerState}
use l2c.Worker.Replay.{holds}
use l2c.Worker.History.{latest_no_effect_transition}
use l2c.Execution.Permission.{ui_actions}
use l2c.Execution.Policy.{Snapshot, blocked_action_reason}
use l2c.Execution.Context.{
  ToolResult, Env, Tools, Context, from_state, next_action_sequence, before_snapshot, finish_state,
  record_action_result,
}
use l2c.Execution.Dispatch.{dispatch_ui_action}
use l2c.Execution.Effects.{CallOutcome, blocked, ran, failed, execute_ui_action}
use l2c.Execution.Run.{
  record_guard_result, went_back, guard_ui_action, guard_action_request, unless_guarded,
  execute_tool_call, settle, clear_errors, execute_one, execute_calls, unless_blocked,
  execute_action_request, run_request, execute_pending, execution_node,
}
use l2c.Execution.Keeps.{Keeps, KeepsOr, IfSome, execute_tool_call-KeepsOr}

-- The policy allows a call, and a tab is closed only after going back had no effect.
unfoldable pub is_allowed : Env → WorkerState → String → String → Args → Bool
unfolding blocked_action_reason latest_no_effect_transition
is_allowed e s source name args =
    is_empty (blocked_action_reason e.sites.unicode e.hostname s name args source)
    && (not (name == "close_current_tab") || went_back (latest_no_effect_transition s))

unblocked :
    (free closes went : Bool) (x y : Context)
    → (if not free then some x else if closes && not went then some y else none) ≡ none
    → (free && (not closes || went)) ≡ true
unblocked free closes went x y h = ground arith

guard_ui_action-allows :
    (e : Env) (c : Context) (name : String) (args : Args) (before : Snapshot)
    → guard_ui_action e c name args before ≡ none
    → is_allowed e c.state c.action_request.source name args ≡ true
unfolding guard_ui_action is_allowed
guard_ui_action-allows e c name args before h =
    let reason =
      blocked_action_reason e.sites.unicode e.hostname c.state name args c.action_request.source in
    unblocked (is_empty reason) (name == "close_current_tab")
      (went_back (latest_no_effect_transition c.state))
      (record_guard_result e c name args before "error" reason true)
      (record_guard_result e c name args before "skipped" "close_tab_requires_failed_go_back" true)
      h

-- A context of the request, in which the guards read what they read of the state.
pub record Guards (s : WorkerState) (request : ActionRequest) (c : Context) : Type 0 where
  pub request_same : c.action_request ≡ request
  pub permission : c.state.permission ≡ s.permission
  pub history : c.state.transition.action_events ≡ s.transition.action_events
  pub screen : c.state.observation.current_screenshot ≡ s.observation.current_screenshot

allowed-Guards :
    (e : Env) (s : WorkerState) (request : ActionRequest) (c : Context) (name : String)
    (args : Args)
    → Guards s request c
    → is_allowed e c.state c.action_request.source name args
      ≡ is_allowed e s request.source name args
unfolding is_allowed blocked_action_reason latest_no_effect_transition
allowed-Guards e s request c name args g = rw (g.request_same, g.permission, g.history, g.screen)

-- Two sets of tools that a request cannot tell apart.
pub record Agree (e : Env) (s : WorkerState) (request : ActionRequest) (t t2 : Tools) : Type 0 where
  pub on_allowed :
      (c : Context) (name : String) (args : Args)
      → is_allowed e s request.source name args ≡ true
      → dispatch_ui_action t c name args ≡ dispatch_ui_action t2 c name args
  pub on_finish : (result : String) → t.finish_task result ≡ t2.finish_task result

unless_guarded_same :
    (e : Env) (t t2 : Tools) (c : Context) (call : ToolCall) (seq : ℕ) (g : Option Context)
    → (g ≡ none
        → dispatch_ui_action t c call.name call.args ≡ dispatch_ui_action t2 c call.name call.args)
    → unless_guarded e t c call seq g ≡ unless_guarded e t2 c call seq g
unfolding execute_ui_action
unless_guarded_same e t t2 c call seq (some guarded) h = refl
unless_guarded_same e t t2 c call seq none h = rw (h refl)

execute_tool_call_same :
    (e : Env) (s : WorkerState) (request : ActionRequest) (t t2 : Tools) (c : Context)
    (call : ToolCall) (seq : ℕ) (before : Snapshot)
    → Agree e s request t t2
    → Guards s request c
    → execute_tool_call e t c call seq before ≡ execute_tool_call e t2 c call seq before
unfolding execute_tool_call
execute_tool_call_same e s request t t2 c call seq before agree g =
    let guarded = guard_ui_action e c call.name call.args before in
    let ui = unless_guarded_same e t t2 c call seq guarded (λ clear.
      agree.on_allowed c call.name call.args (
        sym (allowed-Guards e s request c call.name call.args g)
        ∙ guard_ui_action-allows e c call.name call.args before clear)) in
    rw (ui, agree.on_finish call.args.result)

cleared-Guards :
    (s : WorkerState) (request : ActionRequest) (c : Context) (held : Option WorkerState)
    → Guards s request c
    → Guards s request (clear_errors c held)
cleared-Guards s request c none g = record {
  request_same = g.request_same;
  permission = g.permission;
  history = g.history;
  screen = g.screen;
}
cleared-Guards s request c (some held) g = record {
  request_same = g.request_same;
  permission = g.permission;
  history = g.history;
  screen = g.screen;
}

kept-Guards :
    (s : WorkerState) (request : ActionRequest) (c d : Context)
    → Keeps c d
    → Guards s request c
    → Guards s request d
kept-Guards s request c d k g = record {
  request_same = k.request ∙ g.request_same;
  permission = k.permission ∙ g.permission;
  history = k.history ∙ g.history;
  screen = k.screen ∙ g.screen;
}

recorded-Guards :
    (e : Env) (s : WorkerState) (request : ActionRequest) (c : Context) (name : String)
    (args : Args) (result : ToolResult) (before : Snapshot) (seq : ℕ) (record_ui : Bool)
    → Guards s request c
    → Guards s request (record_action_result e c name args result before seq record_ui)
unfolding record_action_result
recorded-Guards e s request c name args result before seq record_ui g = record {
  request_same = g.request_same;
  permission = g.permission;
  history = g.history;
  screen = g.screen;
}

-- After a call that the loop goes on from.
settled-Guards :
    (e : Env) (s : WorkerState) (request : ActionRequest) (c : Context) (call : ToolCall) (seq : ℕ)
    (before : Snapshot) (o : CallOutcome)
    → KeepsOr (λ d. Unit) c o
    → Guards s request c
    → (settle e call seq before o).1 ≡ true
    → Guards s request (settle e call seq before o).0
settled-Guards e s request c call seq before (blocked d) k g h = ground arith
settled-Guards e s request c call seq before (failed d error) k g h = ground arith
settled-Guards e s request c call seq before (ran d result changed) k g h =
    let ui = holds call.name ui_actions in
    let recorded = record_action_result e d call.name call.args result before seq ui in
    cleared-Guards s request recorded recorded.left_behind (
      recorded-Guards e s request d call.name call.args result before seq ui
        (kept-Guards s request c d k g))

any-IfSome : (g : Option Context) → IfSome (λ d. Unit) g
unfolding IfSome
any-IfSome none = tt
any-IfSome (some c) = tt

if_same {ℓ} :
    {A : Type ℓ} (b : Bool) (x y : A) (z : A)
    → (b ≡ true → x ≡ y)
    → (if b then x else z) ≡ (if b then y else z)
if_same true x y z h = h refl
if_same false x y z h = refl

execute_calls_same :
    (e : Env) (s : WorkerState) (request : ActionRequest) (t t2 : Tools) (calls : List ToolCall)
    (c : Context)
    → Agree e s request t t2
    → Guards s request c
    → execute_calls e t calls c ≡ execute_calls e t2 calls c
unfolding execute_calls
execute_calls_same e s request t t2 [] c agree g = refl
execute_calls_same e s request t t2 (call ∷ calls) c agree g =
    let seq = next_action_sequence c in
    let before = before_snapshot c in
    let o = execute_tool_call e t2 c call seq before in
    let one = execute_tool_call_same e s request t t2 c call seq before agree g in
    let next = execute_one e t2 c call in
    let kept =
      execute_tool_call-KeepsOr (λ d. Unit) e t2 c call seq before
        (any-IfSome (guard_ui_action e c call.name call.args before)) in
    rw one (
      if_same next.1 _ _ next.0 (λ goes_on.
        execute_calls_same e s request t t2 calls next.0 agree
          (settled-Guards e s request c call seq before o kept g goes_on)))

unless_blocked_same :
    (e : Env) (s : WorkerState) (request : ActionRequest) (t t2 : Tools) (c : Context)
    (guarded : Option Context)
    → Agree e s request t t2
    → Guards s request c
    → unless_blocked e t c guarded ≡ unless_blocked e t2 c guarded
unless_blocked_same e s request t t2 c (some guarded) agree g = refl
unless_blocked_same e s request t t2 c none agree g =
    execute_calls_same e s request t t2 c.action_request.tool_calls c agree g

node_same :
    (e : Env) (s : WorkerState) (request : ActionRequest) (t t2 : Tools) (calls : List ToolCall)
    → Agree e s request t t2
    → run_request e t s request calls ≡ run_request e t2 s request calls
unfolding execute_action_request from_state
node_same e s request t t2 [] agree = refl
node_same e s request t t2 (call ∷ calls) agree =
    let named = record request {
      observation_id = or_text request.observation_id s.observation.observation_id;
    } in
    let c = from_state s named in
    ap finish_state (
      unless_blocked_same e s named t t2 c (guard_action_request e c)
        (record { on_allowed = agree.on_allowed; on_finish = agree.on_finish })
        (record { request_same = refl; permission = refl; history = refl; screen = refl }))

-- What the physical tools do on calls that the guards refuse cannot show: two sets of tools that
-- behave alike on the calls that the policy allows (no tab is closed among them unless going back
-- had no effect) and on the end of the task leave the same state behind a pending request.
pub execution_node-Agree :
    (e : Env) (s : WorkerState) (request : ActionRequest) (t t2 : Tools)
    → s.decision.pending_action ≡ some request
    → Agree e s request t t2
    → execution_node e t s ≡ execution_node e t2 s
unfolding execution_node
execution_node-Agree e s request t t2 h agree =
    ap (execute_pending e t s) h
    ∙ node_same e s request t t2 request.tool_calls agree
    ∙ sym (ap (execute_pending e t2 s) h)
