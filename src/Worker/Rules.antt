-- ===== src/Worker/Rules.antt =====
-- What a replayed rule goes through: its position, its verified effect and its persisted outcome.
use l2c.Common.{
  ◌+◌, ◌<◌, String, ◌≡◌, Bool, true, false, not, ◌&&◌, ◌||◌, Option, none, some, List, [], ◌∷◌,
  ◌++◌, ◌==◌, eq_iff, arith, is_some,
}
use l2c.Common.Text.{is_empty, or_text}
use l2c.Worker.State.{
  ExpectedEffect, TransitionRequest, TransitionStatus, ReplaySession, WorkerState,
}
use l2c.Worker.Replay.{
  Frames, pending_is_current, is_last_step, advance, replay_session_after_transition,
  record_replay_outcome, verify_replay_after_state, blocked_recipe_keys, blocked_recipe_keys_after,
  holds,
}

-- A session advances only from a step whose execution was awaited, to the next step, which the rule
-- has, and awaits nothing there.
pub advance_next :
    (r q : ReplaySession)
    → advance r ≡ some q
    → (r.pending_step_index ≡ some r.current_step_index)
      × (q.current_step_index ≡ r.current_step_index + 1)
      × (q.current_step_index < q.step_count)
      × (q.step_count ≡ r.step_count)
      × (pending_is_current q ≡ false)
unfolding advance pending_is_current is_last_step
advance_next r q h = ground arith

-- While a rule's awaited step is judged, an outcome of the rule is persisted exactly if its session
-- ends there: on the last step or on a step that is not ready. The rule must have a key.
pub outcome_ends_session :
    (s : WorkerState) (request : TransitionRequest) (status : TransitionStatus)
    (session : ReplaySession)
    → s.replay.replay_session ≡ some session
    → (request.source == "reflex") ≡ true
    → is_empty (or_text session.recipe_key request.recipe_key) ≡ false
    → pending_is_current session ≡ true
    → is_some (record_replay_outcome s request status)
      ≡ not (is_some (replay_session_after_transition s request.source status))
unfolding record_replay_outcome replay_session_after_transition advance
outcome_ends_session s request status session h source key awaited = ground arith

holds-append :
    (key last : String) (xs : List String)
    → holds key (xs ++ last ∷ []) ≡ (holds key xs || last == key)
holds-append key last [] = ground arith
holds-append key last (x ∷ xs) = ground (arith, holds-append key last xs)

-- A judgement that blocks a rule with a key adds the key to the blocked ones, and one that does not
-- block leaves them as they were.
pub blocked_after :
    (s : WorkerState) (request : TransitionRequest) (should_block : Bool) (key : String)
    → is_empty request.recipe_key ≡ false
    → holds key (blocked_recipe_keys_after s request should_block)
      ≡ ((should_block && request.recipe_key == key) || holds key (blocked_recipe_keys s))
unfolding blocked_recipe_keys_after
blocked_after s request should_block key h = ground (
  arith,
  holds-append key request.recipe_key (blocked_recipe_keys s),
  eq_iff request.recipe_key key,
)

-- Whether a rule's effect is the one that the request expects of a screen: the URL is in its scope.
abbrev pub in_scope : Frames → WorkerState → Option ExpectedEffect → Bool
in_scope f s none = false
in_scope f s (some effect) =
    is_empty effect.expected_url_template
    || f.url_scope_matches effect.expected_url_template s.observation.current_url

-- A verified effect is that of actions that were all executed, and the page it is found on is in
-- the scope of the URL that the rule expects, if it expects one.
pub verified-in_scope :
    (f : Frames) (request : TransitionRequest) (s : WorkerState)
    → (verify_replay_after_state f request s).0 ≡ true
    → (request.execution_failed ≡ false) × (in_scope f s request.expected_effect ≡ true)
unfolding verify_replay_after_state
verified-in_scope f request s h = ground arith
