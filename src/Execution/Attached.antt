-- ===== src/Execution/Attached.antt =====
-- The history of events over the nodes of the worker: an execution appends to it, and a judgement
-- attaches a transition to it.
use l2c.Common.{
  ℕ, ◌≡◌, subst, Bool, true, false, Option, none, some, List, [], ◌∷◌, arith, map, if_elim,
  if◌then◌else◌, not, is_some, refl,
}
use l2c.Worker.State.{
  ActionEvent, Checkpoint, ObservedAction, ObservedTransition, Ratio, TransitionRequest,
  TransitionResult, idle, WorkerState,
}
use l2c.Worker.History.{
  Completed, with_transition, is_seq, attached, attach_action_transition, closed_seqs,
  transition_record, selected_events, first_checkpoint,
}
use l2c.Worker.Effect.{
  Screen, completed_by, TransitionDecision, decide_before_ocr, decide_after_ocr,
  completed_transition_update, pending_transition_update, Completion, updated, ocr_missing,
  not_awaited, inspect_action_effect, complete_action_effect, or_judge, judge_request,
  transition_result_without_request, with_result, complete_request, transition_result,
  low_information_status, transition_has_visual_change,
}

-- What no judgement may change of an event, and the transition that it may add to one number.
abbrev pub Attaches : Option ℕ → List ActionEvent → List ActionEvent → Type 0
Attaches seq [] [] = Unit
Attaches seq (a ∷ older) (b ∷ newer) =
    (b.seq ≡ a.seq)
    × (b.result ≡ a.result)
    × (b.candidate_action ≡ a.candidate_action)
    × (is_seq seq a.seq ≡ false → b ≡ a)
    × Attaches seq older newer
Attaches seq [] (b ∷ newer) = ⊥
Attaches seq (a ∷ older) [] = ⊥

unchanged-Attaches : (seq : Option ℕ) (events : List ActionEvent) → Attaches seq events events
unchanged-Attaches seq [] = tt
unchanged-Attaches seq (a ∷ older) = (refl, refl, refl, λ _. refl, unchanged-Attaches seq older)

with_transition-Attaches :
    (seq : Option ℕ) (t : ObservedTransition) (events : List ActionEvent)
    → Attaches seq events (map (with_transition seq t) events)
with_transition-Attaches seq t [] = tt
with_transition-Attaches seq t (a ∷ older) = ground (arith, with_transition-Attaches seq t older)

attached-Attaches :
    (c : Completed) (events selected : List ActionEvent) (actions : List ObservedAction)
    (before : Option Checkpoint)
    → Attaches c.action_seq events (attached c events selected actions before)
attached-Attaches c events selected actions none = unchanged-Attaches c.action_seq events
attached-Attaches c events selected [] (some before) = unchanged-Attaches c.action_seq events
attached-Attaches c events selected (action ∷ actions) (some before) =
    with_transition-Attaches c.action_seq _ events

attach-Attaches :
    (events : List ActionEvent) (c : Completed)
    → Attaches c.action_seq events (attach_action_transition events c)
unfolding attach_action_transition
attach-Attaches events c =
    let selected = selected_events (closed_seqs c) events in
    attached-Attaches c events selected _ (first_checkpoint selected)

-- The number of the action that a judgement is about.
abbrev pub awaited_seq : Option TransitionRequest → Option ℕ
awaited_seq none = none
awaited_seq (some request) = request.action_seq

completed-Attaches :
    (e : Screen) (s : WorkerState) (d : TransitionDecision) (changed : Bool) (ratio : Option Ratio)
    (ocr_skipped : Bool)
    → Attaches d.request.action_seq s.transition.action_events
        (completed_transition_update e s d changed ratio ocr_skipped).transition.action_events
unfolding completed_transition_update transition_record
completed-Attaches e s d changed ratio ocr_skipped =
    attach-Attaches s.transition.action_events (completed_by e s d ratio ocr_skipped)

judged-Attaches :
    (e : Screen) (s : WorkerState) (d : TransitionDecision) (changed : Bool) (ratio : Option Ratio)
    (ocr_skipped : Bool) (seq : Option ℕ)
    → d.request.action_seq ≡ seq
    → Attaches seq s.transition.action_events
        (completed_transition_update e s d changed ratio ocr_skipped).transition.action_events
judged-Attaches e s d changed ratio ocr_skipped seq h =
    subst
      (λ n.
        Attaches n s.transition.action_events
          (completed_transition_update e s d changed ratio ocr_skipped).transition.action_events)
      h (completed-Attaches e s d changed ratio ocr_skipped)

decide_before_ocr-seq :
    (e : Screen) (s : WorkerState) (request : TransitionRequest) (changed : Bool)
    → (decide_before_ocr e s request changed).request.action_seq ≡ request.action_seq
unfolding decide_before_ocr
decide_before_ocr-seq e s request changed = ground arith

decide_after_ocr-seq :
    (e : Screen) (s : WorkerState) (request : TransitionRequest) (changed : Bool)
    → (decide_after_ocr e s request changed).request.action_seq ≡ request.action_seq
unfolding decide_after_ocr
decide_after_ocr-seq e s request changed = ground arith

judge_request-Attaches :
    (e : Screen) (s : WorkerState) (request : Option TransitionRequest)
    → Attaches
        (awaited_seq request)
        s.transition.action_events
        (judge_request e s request).transition.action_events
unfolding pending_transition_update
judge_request-Attaches e s none = unchanged-Attaches none s.transition.action_events
judge_request-Attaches e s (some request) =
    let path = s.observation.current_screenshot in
    let ratio = e.visual_change_ratio request path in
    let changed = transition_has_visual_change e request path in
    let d = decide_before_ocr e s request changed in
    if_elim
      (λ (t : WorkerState).
        Attaches request.action_seq s.transition.action_events t.transition.action_events)
      d.records_outcome
      (completed_transition_update e s d changed ratio (not s.observation.ocr_complete))
      (pending_transition_update s d changed ratio)
      (λ _.
        judged-Attaches e s d changed ratio _ request.action_seq
          (decide_before_ocr-seq e s request changed))
      (λ _. unchanged-Attaches request.action_seq s.transition.action_events)

or_judge-Attaches :
    (e : Screen) (s : WorkerState) (request : Option TransitionRequest) (low : Bool)
    (left_over idle_result : TransitionResult)
    → Attaches
        (awaited_seq request)
        s.transition.action_events
        (or_judge e s request (
          if low
          then some (with_result s left_over)
          else if is_some request
          then none
          else some (with_result s idle_result))).transition.action_events
or_judge-Attaches e s request true left_over idle_result =
    unchanged-Attaches (awaited_seq request) s.transition.action_events
or_judge-Attaches e s none false left_over idle_result =
    unchanged-Attaches none s.transition.action_events
or_judge-Attaches e s (some request) false left_over idle_result =
    judge_request-Attaches e s (some request)

inspect-Attaches :
    (e : Screen) (s : WorkerState)
    → Attaches
        (awaited_seq s.transition.transition_request)
        s.transition.action_events
        (inspect_action_effect e s).transition.action_events
unfolding inspect_action_effect transition_result_without_request
inspect-Attaches e s =
    let request = s.transition.transition_request in
    or_judge-Attaches e s request s.observation.low_information_screen
      (transition_result request (low_information_status request) "low_information_screen" false
        none false)
      (transition_result none idle "no_transition_request" false none
        (not s.observation.ocr_complete))

-- What a completed judgement leaves.
abbrev pub IfUpdated : (WorkerState → Type 0) → Completion → Type 0
IfUpdated P (updated t) = P t
IfUpdated P ocr_missing = Unit
IfUpdated P not_awaited = Unit

complete_request-Attaches :
    (e : Screen) (s : WorkerState) (request : Option TransitionRequest)
    → IfUpdated
        (λ t. Attaches (awaited_seq request) s.transition.action_events t.transition.action_events)
        (complete_request e s request)
complete_request-Attaches e s none = unchanged-Attaches none s.transition.action_events
complete_request-Attaches e s (some request) =
    let result = s.transition.transition_result in
    let changed = result.visual_change_detected in
    let attaches =
      judged-Attaches e s (decide_after_ocr e s request changed) changed result.visual_change_ratio
        false request.action_seq (decide_after_ocr-seq e s request changed) in
    ground (arith, attaches)

-- Before the OCR and after it, a judgement changes no number, result or action of an event, and no
-- event at all but the one with the number of the awaited action.
pub judging-Attaches :
    (e : Screen) (s : WorkerState)
    → Attaches
        (awaited_seq s.transition.transition_request)
        s.transition.action_events
        (inspect_action_effect e s).transition.action_events
      × IfUpdated
          (λ t.
            Attaches
              (awaited_seq s.transition.transition_request)
              s.transition.action_events
              t.transition.action_events)
          (complete_action_effect e s)
unfolding complete_action_effect
judging-Attaches e s =
    (inspect-Attaches e s, complete_request-Attaches e s s.transition.transition_request)
