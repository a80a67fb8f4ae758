-- ===== src/Worker/Routing.antt =====
-- agent/graph/workflow.py: where the worker's graph goes after each of its nodes.
use l2c.Common.{true, Option, none, some, is_some, leb, if◌then◌else◌, arith, ◌≡◌, ◌↔◌, ◌||◌}
use l2c.Worker.State.{WorkerState, current_observation_ready}

pub data Stop : Type 0 where
  observation decision execution review end : Stop

unfoldable pub route_after_start : WorkerState → Stop
unfolding current_observation_ready
route_after_start s =
    if s.observation.low_information_screen
    then decision
    else if current_observation_ready s
    then decision
    else observation

-- `none` is the `RuntimeError` of a decision that left nothing to do.
unfoldable pub route_after_decision : WorkerState → Option Stop
route_after_decision s =
    if s.lifecycle.is_finished
    then some end
    else if is_some s.decision.pending_action
    then some execution
    else if s.observation.low_information_screen
    then some observation
    else none

unfoldable pub route_after_execution : WorkerState → Stop
route_after_execution s =
    if s.lifecycle.is_finished
    then end
    else if leb 3 s.transition.error_count
    then end
    else if s.collection.has_job_draft
    then review
    else if is_some s.transition.transition_request
    then observation
    else decision

unfoldable pub route_after_review : WorkerState → Stop
route_after_review s = if s.lifecycle.is_finished then end else decision

-- Whichever node has run, the graph leaves a worker that is finished for its end, and after an
-- execution also one with three errors or more; nothing else ends it there.
pub routes_end :
    (s : WorkerState)
    → ((route_after_execution s ≡ end)
        ↔ ((s.lifecycle.is_finished || leb 3 s.transition.error_count) ≡ true))
      × ((route_after_decision s ≡ some end) ↔ (s.lifecycle.is_finished ≡ true))
      × ((route_after_review s ≡ end) ↔ (s.lifecycle.is_finished ≡ true))
unfolding route_after_execution route_after_decision route_after_review
routes_end s = ground arith
