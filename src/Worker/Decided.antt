-- ===== src/Worker/Decided.antt =====
-- How a decision of the worker ends.
use l2c.Common.{
  ◌≡◌, refl, ◌⊎◌, inl, inr, Bool, true, false, not, ◌&&◌, ◌||◌, Option, none, some, arith, is_some,
  if_elim, if◌then◌else◌, Raises, raised, returned,
}
use l2c.Worker.State.{TransitionRequest, WorkerState, current_observation_ready}
use l2c.Worker.Effect.{
  Screen, Completion, updated, ocr_missing, not_awaited, awaits_ocr, complete_action_effect,
  complete_request,
}
use l2c.JobCards.Queue.{has_unresolved_job_card_queue}
use l2c.Worker.Cycle.{
  Steps, NodeEnd, went, inner_raised, unread, unawaited, node_end, judgement_end, judged_if_awaited,
  has_pending_action, reflex_missed_current_observation, tried, try_reflex, run_ocr, is_unknown,
  decision_is_resolved, after, read_and_select, or_read, prepare_current_observation, or_reason,
  decide_prepared, review_follow_up_due, unless_selected, decision_node, is_reflex_request,
}

-- The decision is made, or the model has reasoned about a state.
abbrev pub Settled : Steps → WorkerState → Type 0
Settled n t = (decision_is_resolved t ≡ true) ⊎ ((w : WorkerState) × (n.reasoning w ≡ returned t))

-- Of how a node ends: with a settled state, or because an inner node raises.
abbrev Decides : Steps → NodeEnd → Type 0
Decides n (went t) = Settled n t
Decides n (inner_raised error) = Unit
Decides n unread = ⊥
Decides n unawaited = ⊥

reasoned-Decides :
    (n : Steps) (w : WorkerState) (o : Raises WorkerState)
    → n.reasoning w ≡ o
    → Decides n (node_end o)
reasoned-Decides n w (raised error) h = tt
reasoned-Decides n w (returned t) h = inr (w, h)

requested-resolved :
    (s : WorkerState)
    → is_reflex_request s.decision.pending_action ≡ true
    → decision_is_resolved s ≡ true
unfolding decision_is_resolved
requested-resolved s h = ground arith

or_reason-Decides :
    (n : Steps) (s : WorkerState) (hit : Bool)
    → (hit ≡ true → decision_is_resolved s ≡ true)
    → Decides n (or_reason n (returned (s, hit)))
or_reason-Decides n s true h = inl (h refl)
or_reason-Decides n s false h = reasoned-Decides n s (n.reasoning s) refl

tried-Decides : (n : Steps) (o : Raises WorkerState) → Decides n (or_reason n (tried o))
tried-Decides n (raised error) = tt
tried-Decides n (returned t) =
    or_reason-Decides n t (is_reflex_request t.decision.pending_action) (requested-resolved t)

try_reflex-Decides : (n : Steps) (s : WorkerState) → Decides n (or_reason n (try_reflex n s))
unfolding try_reflex
try_reflex-Decides n s =
    if_elim (λ (r : Raises (WorkerState × Bool)). Decides n (or_reason n r))
      (not n.reflex_enabled || reflex_missed_current_observation s) (returned (s, false))
      (tried (n.reflex s)) (λ missed. or_reason-Decides n s false (λ h. absurd (cc)))
      (λ asked. tried-Decides n (n.reflex s))

decide_prepared-Decides : (n : Steps) (s : WorkerState) → Decides n (decide_prepared n s)
unfolding decide_prepared
decide_prepared-Decides n s =
    let must_reason =
      has_unresolved_job_card_queue s || is_unknown s.transition.transition_result.status in
    let reasoned = reasoned-Decides n s (n.reasoning s) refl in
    if_elim (Decides n) (decision_is_resolved s) (went s)
      (if must_reason then node_end (n.reasoning s) else or_reason n (try_reflex n s))
      (λ resolved. inl resolved)
      (λ unsettled.
        if_elim (Decides n) must_reason (node_end (n.reasoning s)) (or_reason n (try_reflex n s))
          (λ due. reasoned) (λ free. try_reflex-Decides n s))

-- How the judgement of an action ends, when it is awaited: only a screen that is not read stops it.
abbrev Faults : WorkerState → Completion → Type 0
Faults s (updated t) = Unit
Faults s ocr_missing = s.observation.ocr_complete ≡ false
Faults s not_awaited = ⊥

request-Faults :
    (e : Screen) (s : WorkerState) (o : Option TransitionRequest)
    → awaits_ocr s.transition.transition_result.status ≡ true
    → Faults s (complete_request e s o)
request-Faults e s none h = tt
request-Faults e s (some request) h =
    if_elim (Faults s) (not s.observation.ocr_complete) ocr_missing _ (λ unread. ground arith)
      (λ read.
        if_elim (Faults s) (not (awaits_ocr s.transition.transition_result.status)) not_awaited _
          (λ other. ground arith) (λ awaited. tt))

-- The state that the OCR reads: the selected one, or the one that the stored rules left.
abbrev pub ReadFrom : Steps → WorkerState → WorkerState → Type 0
ReadFrom n selected w = (w ≡ selected) ⊎ (n.reflex selected ≡ returned w)

-- The OCR returned with the screen unread.
abbrev pub Unread : Steps → WorkerState → Type 0
Unread n selected =
    (w : WorkerState) × (r : WorkerState) × ReadFrom n selected w
    × (n.ocr w ≡ returned r)
    × (r.observation.ocr_complete ≡ false)

-- What holds of the end of a decision: it is settled, an inner node raises, or the OCR left the
-- screen of the selected state unread; it is never a judgement that does not wait for the OCR.
abbrev pub Ends : Steps → WorkerState → NodeEnd → Type 0
Ends n s (went t) = Settled n t
Ends n s (inner_raised error) = Unit
Ends n s unread = (selected : WorkerState) × (n.selection s ≡ returned selected) × Unread n selected
Ends n s unawaited = ⊥

Decides-Ends : (n : Steps) (s : WorkerState) (o : NodeEnd) → Decides n o → Ends n s o
Decides-Ends n s (went t) h = h
Decides-Ends n s (inner_raised error) h = tt
Decides-Ends n s unread h = absurd h
Decides-Ends n s unawaited h = h

abbrev Reads : Steps → WorkerState → NodeEnd → Type 0
Reads n selected (went t) = Unit
Reads n selected (inner_raised error) = Unit
Reads n selected unread = Unread n selected
Reads n selected unawaited = ⊥

returned-Reads :
    (n : Steps) (selected : WorkerState) (o : Raises WorkerState) → Reads n selected (node_end o)
returned-Reads n selected (raised error) = tt
returned-Reads n selected (returned t) = tt

module _ (n : Steps) (selected w : WorkerState) (from : ReadFrom n selected w) where
  Faults-Reads :
      (r : WorkerState) (c : Completion)
      → n.ocr w ≡ returned r
      → Faults r c
      → Reads n selected (judgement_end c)
  Faults-Reads r (updated t) h k = tt
  Faults-Reads r ocr_missing h k = (w, r, from, h, k)
  Faults-Reads r not_awaited h k = k

  read-Reads :
      (o : Raises WorkerState)
      → n.ocr w ≡ o
      → Reads n selected (after (node_end o) (judged_if_awaited n))
  unfolding complete_action_effect
  read-Reads (raised error) h = tt
  read-Reads (returned r) h =
      if_elim (Reads n selected)
        (is_some r.transition.transition_request
          && awaits_ocr r.transition.transition_result.status)
        (judgement_end (complete_action_effect n.screen r)) (went r)
        (λ awaited.
          Faults-Reads r (complete_action_effect n.screen r) h
            (request-Faults n.screen r r.transition.transition_request (ground arith)))
        (λ other. tt)

  selected-Reads :
      (o : NodeEnd)
      → Reads n selected o
      → Reads n selected (after o (λ t. node_end (n.selection t)))
  selected-Reads (went t) h = returned-Reads n selected (n.selection t)
  selected-Reads (inner_raised error) h = tt
  selected-Reads unread h = h
  selected-Reads unawaited h = h

  read_and_select-Reads : Reads n selected (read_and_select n w)
  unfolding run_ocr
  read_and_select-Reads = selected-Reads (run_ocr n w) (read-Reads (n.ocr w) refl)

or_read-Reads :
    (n : Steps) (selected w : WorkerState) (hit : Bool)
    → ReadFrom n selected w
    → Reads n selected (or_read n (returned (w, hit)))
or_read-Reads n selected w true from = tt
or_read-Reads n selected w false from = read_and_select-Reads n selected w from

tried-Reads :
    (n : Steps) (selected : WorkerState) (o : Raises WorkerState)
    → n.reflex selected ≡ o
    → Reads n selected (or_read n (tried o))
tried-Reads n selected (raised error) h = tt
tried-Reads n selected (returned t) h =
    or_read-Reads n selected t (is_reflex_request t.decision.pending_action) (inr h)

try_reflex-Reads : (n : Steps) (s : WorkerState) → Reads n s (or_read n (try_reflex n s))
unfolding try_reflex
try_reflex-Reads n s =
    if_elim (λ (r : Raises (WorkerState × Bool)). Reads n s (or_read n r))
      (not n.reflex_enabled || reflex_missed_current_observation s) (returned (s, false))
      (tried (n.reflex s)) (λ missed. or_read-Reads n s s false (inl refl))
      (λ asked. tried-Reads n s (n.reflex s) refl)

prepare-Reads : (n : Steps) (s : WorkerState) → Reads n s (prepare_current_observation n s)
unfolding prepare_current_observation
prepare-Reads n s =
    let status = s.transition.transition_result.status in
    let skips = awaits_ocr status || is_unknown status in
    let read = read_and_select-Reads n s s (inl refl) in
    if_elim (Reads n s) (current_observation_ready s) (went s)
      (if skips then read_and_select n s else or_read n (try_reflex n s)) (λ prepared. tt)
      (λ stale.
        if_elim (Reads n s) skips (read_and_select n s) (or_read n (try_reflex n s))
          (λ awaited. read) (λ free. try_reflex-Reads n s))

prepared-Ends :
    (n : Steps) (s selected : WorkerState) (o : NodeEnd)
    → n.selection s ≡ returned selected
    → Reads n selected o
    → Ends n s (after o (decide_prepared n))
prepared-Ends n s selected (went t) h k =
    Decides-Ends n s (decide_prepared n t) (decide_prepared-Decides n t)
prepared-Ends n s selected (inner_raised error) h k = tt
prepared-Ends n s selected unread h k = (selected, h, k)
prepared-Ends n s selected unawaited h k = k

selected-Ends :
    (n : Steps) (s : WorkerState) (o : Raises WorkerState)
    → n.selection s ≡ o
    → Ends n s (after (node_end o) (unless_selected n))
selected-Ends n s (raised error) h = tt
selected-Ends n s (returned selected) h =
    if_elim (Ends n s) (decision_is_resolved selected) (went selected)
      (after (prepare_current_observation n selected) (decide_prepared n))
      (λ resolved. inl resolved)
      (λ unsettled.
        prepared-Ends n s selected (prepare_current_observation n selected) h
          (prepare-Reads n selected))

-- A decision that returns leaves a worker that is finished, has an action, saw a screen of low
-- information or waits, or the state that the model's reasoning made. Unless an inner node raises,
-- it raises only if the OCR of the selected state, or of the one that the stored rules made of it,
-- leaves the screen unread, and never because a judgement does not wait for the OCR.
pub decision_node-Ends : (n : Steps) (s : WorkerState) → Ends n s (decision_node n s)
unfolding decision_node
decision_node-Ends n s =
    let chosen = after (node_end (n.selection s)) (unless_selected n) in
    if_elim (Ends n s) (s.lifecycle.is_finished || has_pending_action s) (went s)
      (if review_follow_up_due s then node_end (n.reasoning s) else chosen)
      (λ h. inl (unfold decision_is_resolved in ground arith))
      (λ h.
        if_elim (Ends n s) (review_follow_up_due s) (node_end (n.reasoning s)) chosen
          (λ due.
            Decides-Ends n s (node_end (n.reasoning s)) (reasoned-Decides n s (n.reasoning s) refl))
          (λ free. selected-Ends n s (n.selection s) refl))
