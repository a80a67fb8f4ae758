-- ===== src/Worker/Judged.antt =====
-- What the two judgements of an action's effect make of the worker.
use l2c.Common.{
  ◌≡◌, refl, ◌∙◌, ap, sym, subst, ◌↔◌, ◌⊎◌, String, Bool, true, false, not, ◌&&◌, ◌||◌, Option,
  none, some, arith, ◌==◌, leb, length, if◌then◌else◌,
}
use l2c.Common.Text.{is_empty}
use l2c.Worker.State.{
  Ratio, TransitionRequest, TransitionStatus, absent, waiting_capture, idle, pending, needs_ocr,
  ready, unknown, WorkerState, ReplaySession,
}
use l2c.Worker.Replay.{
  Verdict, verify_replay_after_state, advance_on, blocked_recipe_keys, holds,
  replay_session_after_transition,
}
use l2c.Worker.Texts.{input_text_confirmed_by_ocr}
use l2c.Worker.Rules.{blocked_after}
use l2c.Worker.Effect.{
  Screen, TransitionDecision, decide_before_ocr, decide_after_ocr, url_changed,
  queue_target_reached, judged_rule, completed_transition_update, pending_transition_update,
  inspect_action_effect, complete_action_effect, complete_request, updated, ocr_missing,
  not_awaited, awaits_ocr,
}

abbrev pub request_after : WorkerState → Option TransitionRequest
request_after s = s.transition.transition_request

abbrev pub status_after : WorkerState → TransitionStatus
status_after s = s.transition.transition_result.status

-- Before the OCR of the new screen, an awaited action is never judged a success: the request stays
-- and waits for the OCR, or it is dropped with an unknown effect. The screen is not one of low
-- information.
pub inspect-waits_or_drops :
    (e : Screen) (s : WorkerState) (request : TransitionRequest)
    → s.transition.transition_request ≡ some request
    → s.observation.low_information_screen ≡ false
    → ((request_after (inspect_action_effect e s) ≡ some request)
        × (status_after (inspect_action_effect e s) ≡ needs_ocr))
      ⊎ ((request_after (inspect_action_effect e s) ≡ none)
          × (status_after (inspect_action_effect e s) ≡ unknown))
unfolding inspect_action_effect decide_before_ocr pending_transition_update
    completed_transition_update
inspect-waits_or_drops e s request h low = ground arith

-- After the OCR, an action counts as a success exactly if: a replayed rule's effect is verified; or
-- it is another action, the screen has markers, and the URL or the frame changed or the typed text
-- appeared, and, if it opens a queued card, the page is a job's detail page.
pub decide_after_ocr-ready :
    (e : Screen) (s : WorkerState) (request : TransitionRequest) (visual_changed : Bool)
    → ((decide_after_ocr e s request visual_changed).status ≡ ready) ↔ (
        (if request.source == "reflex"
          then (verify_replay_after_state e.frames request s).0
          else (not (request.source == "job_card_queue") || queue_target_reached e s)
            && leb 1 (length s.observation.current_markers)
            && (url_changed s request
                || visual_changed
                || input_text_confirmed_by_ocr e.sites.unicode s request))
        ≡ true)
unfolding decide_after_ocr
decide_after_ocr-ready e s request visual_changed = ground arith

decide_after_ocr-settles :
    (e : Screen) (s : WorkerState) (request : TransitionRequest) (visual_changed : Bool)
    → ((decide_after_ocr e s request visual_changed).status ≡ ready)
      ⊎ ((decide_after_ocr e s request visual_changed).status ≡ unknown)
unfolding decide_after_ocr
decide_after_ocr-settles e s request visual_changed = ground arith

-- The judgement that completes an awaited action.
abbrev judgement : Screen → WorkerState → TransitionRequest → TransitionDecision
judgement e s request =
    decide_after_ocr e s request s.transition.transition_result.visual_change_detected

abbrev completed : Screen → WorkerState → TransitionRequest → WorkerState
completed e s request =
    completed_transition_update e s (judgement e s request)
      s.transition.transition_result.visual_change_detected
      s.transition.transition_result.visual_change_ratio false

guarded :
    (a b : Bool) (w t : WorkerState)
    → (if not a then ocr_missing else if not b then not_awaited else updated w) ≡ updated t
    → (a ≡ true) × (b ≡ true) × (t ≡ w)
guarded false b w t h = absurd (cc)
guarded true false w t h = absurd (cc)
guarded true true w t h = (refl, refl, cc)

record Completes (e : Screen) (s t : WorkerState) (request : TransitionRequest) : Type 0 where
  read : s.observation.ocr_complete ≡ true
  awaited : awaits_ocr (status_after s) ≡ true
  result : t ≡ completed e s request

awaits_ocr-needs_ocr : (status : TransitionStatus) → awaits_ocr status ≡ true → status ≡ needs_ocr
awaits_ocr-needs_ocr absent h = absurd (cc)
awaits_ocr-needs_ocr waiting_capture h = absurd (cc)
awaits_ocr-needs_ocr idle h = absurd (cc)
awaits_ocr-needs_ocr pending h = absurd (cc)
awaits_ocr-needs_ocr needs_ocr h = refl
awaits_ocr-needs_ocr ready h = absurd (cc)
awaits_ocr-needs_ocr unknown h = absurd (cc)

request-Completes :
    (e : Screen) (s t : WorkerState) (request : TransitionRequest)
    → complete_request e s (some request) ≡ updated t
    → Completes e s t request
request-Completes e s t request k =
    let passed =
      guarded s.observation.ocr_complete (awaits_ocr (status_after s)) (completed e s request) t
        k in
    record { read = passed.0; awaited = passed.1; result = passed.2 }

completion-Completes :
    (e : Screen) (s t : WorkerState) (request : TransitionRequest)
    → s.transition.transition_request ≡ some request
    → complete_action_effect e s ≡ updated t
    → Completes e s t request
unfolding complete_action_effect
completion-Completes e s t request h k =
    request-Completes e s t request
      (subst (λ (o : Option TransitionRequest). complete_request e s o ≡ updated t) h k)

completed_request :
    (e : Screen) (s : WorkerState) (request : TransitionRequest)
    → (request_after (completed e s request) ≡ none)
      × (status_after (completed e s request) ≡ (judgement e s request).status)
unfolding completed_transition_update
completed_request e s request = (refl, refl)

-- Completing the judgement of an awaited action succeeds only when the screen has been read and the
-- judgement waits for that; it then drops the request and calls the effect a success or unknown.
pub complete-settles :
    (e : Screen) (s t : WorkerState) (request : TransitionRequest)
    → s.transition.transition_request ≡ some request
    → complete_action_effect e s ≡ updated t
    → (s.observation.ocr_complete ≡ true)
      × (status_after s ≡ needs_ocr)
      × (request_after t ≡ none)
      × ((status_after t ≡ ready) ⊎ (status_after t ≡ unknown))
complete-settles e s t request h k =
    let c = completion-Completes e s t request h k in
    (
      c.read,
      awaits_ocr-needs_ocr (status_after s) c.awaited,
      subst (λ (w : WorkerState). request_after w ≡ none) (sym c.result)
          (completed_request e s request).0,
      subst (λ (status : TransitionStatus). (status ≡ ready) ⊎ (status ≡ unknown))
          (sym (ap status_after c.result ∙ (completed_request e s request).1))
          (decide_after_ocr-settles e s request
            s.transition.transition_result.visual_change_detected),
    )

rule_judgement :
    (e : Screen) (s : WorkerState) (request : TransitionRequest)
    → (request.source == "reflex") ≡ true
    → judgement e s request ≡ judged_rule request (verify_replay_after_state e.frames request s)
unfolding decide_after_ocr
rule_judgement e s request source = rw source refl

settled_rule :
    (e : Screen) (s : WorkerState) (request : TransitionRequest)
    → (request.source == "reflex") ≡ true
    → is_empty request.recipe_key ≡ false
    → (verdict : Verdict) (visual_changed : Bool) (ratio : Option Ratio) (blocked : String)
    → let t =
        completed_transition_update e s (judged_rule request verdict) visual_changed ratio false in
      (t.replay.replay_session
        ≡ (if verdict.0 then advance_on ready s.replay.replay_session else none))
      × (holds blocked t.replay.blocked_recipe_keys ≡ (
          (not verdict.0 && request.recipe_key == blocked)
          || holds blocked (blocked_recipe_keys s)))
unfolding completed_transition_update replay_session_after_transition
settled_rule e s request source key (verified, reason, trace) visual_changed ratio blocked = (
  session_after s.replay.replay_session verified,
  blocked_after s (record request { after_state_match = trace }) (not verified) blocked key,
)
  where
    session_after :
        (session : Option ReplaySession) (verified : Bool)
        → (if request.source == "reflex"
            then advance_on (if verified then ready else unknown) session
            else session)
          ≡ (if verified then advance_on ready session else none)
    session_after none true = rw source refl
    session_after none false = rw source refl
    session_after (some q) true = rw source refl
    session_after (some q) false = rw source refl

completed_rule :
    (e : Screen) (s : WorkerState) (request : TransitionRequest) (blocked : String)
    → (request.source == "reflex") ≡ true
    → is_empty request.recipe_key ≡ false
    → let verified = (verify_replay_after_state e.frames request s).0 in
      ((completed e s request).replay.replay_session
        ≡ (if verified then advance_on ready s.replay.replay_session else none))
      × (holds blocked (completed e s request).replay.blocked_recipe_keys ≡ (
          (not verified && request.recipe_key == blocked) || holds blocked (blocked_recipe_keys s)))
completed_rule e s request blocked source key = rw (rule_judgement e s request source) (
    settled_rule e s request source key (verify_replay_after_state e.frames request s)
      s.transition.transition_result.visual_change_detected
      s.transition.transition_result.visual_change_ratio blocked)

-- A replayed rule whose effect is verified once the screen is read advances its session and leaves
-- the blocked keys as they were; one whose effect is not verified loses its session, and exactly
-- its key is added to them. The rule has a key; empty keys do not count.
pub complete-rule :
    (e : Screen) (s t : WorkerState) (request : TransitionRequest) (blocked : String)
    → s.transition.transition_request ≡ some request
    → (request.source == "reflex") ≡ true
    → is_empty request.recipe_key ≡ false
    → complete_action_effect e s ≡ updated t
    → let verified = (verify_replay_after_state e.frames request s).0 in
      (t.replay.replay_session
        ≡ (if verified then advance_on ready s.replay.replay_session else none))
      × (holds blocked t.replay.blocked_recipe_keys ≡ (
          (not verified && request.recipe_key == blocked) || holds blocked (blocked_recipe_keys s)))
complete-rule e s t request blocked h source key k =
    let verified = (verify_replay_after_state e.frames request s).0 in
    let c = completion-Completes e s t request h k in
    subst
      (λ (w : WorkerState).
        (w.replay.replay_session
          ≡ (if verified then advance_on ready s.replay.replay_session else none))
        × (holds blocked w.replay.blocked_recipe_keys ≡ (
            (not verified && request.recipe_key == blocked)
            || holds blocked (blocked_recipe_keys s))))
      (sym c.result) (completed_rule e s request blocked source key)
