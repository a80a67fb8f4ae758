-- ===== src/Execution/Opened.antt =====
-- What executing the click on a queued card does to the queue.
use l2c.Common.{
  ℕ, String, ◌≡◌, refl, ◌∙◌, ap, sym, subst, Bool, true, false, Option, none, some, List, [], ◌∷◌,
  arith, ◌==◌, ==-refl, any, if_elim, if◌then◌else◌, Raises, raised, returned, Bool-cases, inl, inr,
}
use l2c.Common.Text.{Unicode, is_empty, strip, append}
use l2c.Worker.State.{Marker, Args, no_args, Card, pending, active, ToolCall, ActionRequest}
use l2c.JobCards.Queue.{pending_job_cards, active_job_card, is_pending}
use l2c.JobCards.Lifecycle.{activate_job_card, job_card_click_matches_queue}
use l2c.JobCards.Marker.{first_pending-activates}
use l2c.JobCards.Request.{OpensFirst}
use l2c.Execution.Policy.{Snapshot}
use l2c.Execution.Context.{ToolResult, Env, Tools, Context, set_transition_request}
use l2c.Execution.Effects.{
  checked, CallOutcome, blocked, ran, failed, performed, execute_ui_action, with_state,
  observed_after, screen_may_change, transition_source, activate_clicked_job_card, activated,
}
use l2c.Execution.Keeps.{IfSome, none-IfSome, if-IfSome}
use l2c.Execution.Run.{guard_ui_action, unless_guarded, execute_tool_call}
use l2c.Execution.Dispatch.{dispatch_ui_action}

abbrev queue_of : Context → List Card
queue_of c = c.state.collection.job_card_queue

-- The queue that a call leaves.
abbrev pub queue_after : CallOutcome → List Card
queue_after (blocked c) = queue_of c
queue_after (ran c result changed) = queue_of c
queue_after (failed c error) = queue_of c

-- Whether a call ran and its tool reports success.
abbrev pub has_succeeded : CallOutcome → Bool
has_succeeded (blocked c) = false
has_succeeded (ran c result changed) = result.status == "success"
has_succeeded (failed c error) = false

abbrev call_of : Card → ℕ → ToolCall
call_of item marker = record {
  name = "click_marker";
  call_id = append "job_card_queue_" item.queue_id;
  args = record no_args { marker_id = some marker; target_label = item.title };
  queue_id = item.queue_id;
  transition_source = "";
}

numbered_in :
    (queue : List Card) (item : Card) (others : List Card)
    → pending_job_cards queue ≡ item ∷ others
    → any (λ (card : Card). item.queue_id == card.queue_id) queue ≡ true
unfolding pending_job_cards
numbered_in [] item others h = absurd (cc)
numbered_in (card ∷ cards) item others h = elim (Bool-cases (is_pending card.status)) [
  | inl e ↦ ground (arith, h, ==-refl item.queue_id)
  | inr e ↦ ground (arith, numbered_in cards item others (ground (arith, h, e)))
]

abbrev SameQueue : Context → Context → Type 0
SameQueue c d = queue_of d ≡ queue_of c

guard_ui_action-SameQueue :
    (e : Env) (c : Context) (name : String) (args : Args) (before : Snapshot)
    → IfSome (SameQueue c) (guard_ui_action e c name args before)
unfolding guard_ui_action
guard_ui_action-SameQueue e c name args before = search (if-IfSome, none-IfSome)

-- Of the cards: the one at the front of the pending ones opens if the call succeeds, and none is
-- active otherwise.
abbrev Opens : Card → CallOutcome → Type 0
Opens item outcome =
    active_job_card (queue_after outcome)
    ≡ (if has_succeeded outcome then some (record item { status = active }) else none)

clicked-Opens :
    (u : Unicode) (d : Context) (item : Card) (call : ToolCall) (result : ToolResult)
    (changed : Bool)
    → (call.name == "click_marker") ≡ true
    → job_card_click_matches_queue u (queue_of d) call.queue_id ≡ true
    → active_job_card (queue_of d) ≡ none
    → active_job_card (activate_job_card u (queue_of d) call.queue_id)
      ≡ some (record item { status = active })
    → Opens item (activated u call (ran d result changed))
unfolding activate_clicked_job_card
clicked-Opens u d item call result changed name known idle opened =
    elim (Bool-cases (result.status == "success")) [
      | inl e ↦ rw (e, name, known) opened
      | inr e ↦ rw e idle
    ]

module _ (u : Unicode) (c : Context) (item : Card) (call : ToolCall)
    (name : (call.name == "click_marker") ≡ true)
    (known : job_card_click_matches_queue u (queue_of c) call.queue_id ≡ true)
    (idle : active_job_card (queue_of c) ≡ none)
    (opened : active_job_card (activate_job_card u (queue_of c) call.queue_id)
      ≡ some (record item { status = active })) where
  performed-Opens :
      (seq : ℕ) (r : Raises ToolResult) → Opens item (activated u call (performed c call seq r))
  unfolding set_transition_request
  performed-Opens seq (raised error) = idle
  performed-Opens seq (returned result) =
      let moved =
        with_state c
          (record c.state { observation = observed_after c call.name call.args result }) in
      let changed = screen_may_change c call.name result in
      let asked = set_transition_request moved seq call.name call.args (transition_source c call) in
      if_elim (λ (d : Context). Opens item (activated u call (ran d result changed))) changed asked
        moved (λ _. clicked-Opens u asked item call result changed name known idle opened)
        (λ _. clicked-Opens u moved item call result changed name known idle opened)

  guarded-Opens :
      (e : Env) (t : Tools) (seq : ℕ) (o : Option Context)
      → e.sites.unicode ≡ u
      → IfSome (SameQueue c) o
      → Opens item (unless_guarded e t c call seq o)
  unfolding IfSome execute_ui_action
  guarded-Opens e t seq none same h =
      rw same (performed-Opens seq (checked (dispatch_ui_action t c call.name call.args)))
  guarded-Opens e t seq (some d) same h = rw h idle

-- Executing the tool call of a request that opens the first pending card makes that card the active
-- one if the call runs and its tool reports success; no card is active if a guard blocks the call,
-- the tool raises or it reports anything else. The card must be marked pending, and its number must
-- be a text that stripping leaves alone and that is not empty.
pub execute_tool_call-opens :
    (e : Env) (t : Tools) (c : Context) (seq : ℕ) (before : Snapshot) (markers : List Marker)
    (r : ActionRequest) (call : ToolCall) (o : OpensFirst e.sites c.state markers r)
    → r.tool_calls ≡ call ∷ []
    → o.item.status ≡ pending
    → strip e.sites.unicode o.item.queue_id ≡ o.item.queue_id
    → is_empty o.item.queue_id ≡ false
    → (let outcome = execute_tool_call e t c call seq before in
        active_job_card (queue_after outcome)
        ≡ (if has_succeeded outcome then some (record o.item { status = active }) else none))
unfolding execute_tool_call activate_job_card job_card_click_matches_queue
execute_tool_call-opens e t c seq before markers r call o made p q visible =
    let queue = queue_of c in
    let calls = ap (λ (x : ActionRequest). x.tool_calls) (sym o.made) ∙ made in
    let call_is : call_of o.item o.marker ≡ call = cc in
    let opened : active_job_card (activate_job_card e.sites.unicode queue o.item.queue_id)
        ≡ some (record o.item { status = active }) =
      rw (q, visible) (first_pending-activates queue o.item o.others o.waiting p o.idle) in
    let known : job_card_click_matches_queue e.sites.unicode queue o.item.queue_id ≡ true =
      rw (q, visible) (numbered_in queue o.item o.others o.waiting) in
    subst (λ (call : ToolCall). Opens o.item (execute_tool_call e t c call seq before)) call_is
      (guarded-Opens e.sites.unicode c o.item (call_of o.item o.marker) refl known o.idle opened e t
        seq _ refl
        (guard_ui_action-SameQueue e c "click_marker" (call_of o.item o.marker).args before))
