-- ===== src/Selection/Binding.antt =====
-- agent/recipe/replay.py: the targets of a step on the screen, and the arguments of its tools.
use l2c.Common.{
  ℕ, suc, String, ◌&&◌, not, Option, none, some, List, [], ◌∷◌, ◌++◌, ◌==◌, nat_eq, max, is_some,
  if◌then◌else◌,
}
use l2c.Common.Text.{is_empty, or_text}
use l2c.Worker.State.{Marker, Args, no_args}
use l2c.Selection.Stored.{RuleAction, ReplayContext, ReflexCandidate, input_value}

-- `TargetBindings`
pub record TargetBindings : Type 0 where
  pub markers : List Marker
  pub by_action : List (ℕ × Marker)
  pub blocked_reason : String
  pub verified_target_count : ℕ

abbrev pub next_id : List Marker → ℕ
next_id [] = 0
next_id (m ∷ ms) = max (suc m.id) (next_id ms)

abbrev pub bound : RuleAction → Option Marker × String → TargetBindings → ℕ → TargetBindings × ℕ
bound action (none, reason) b id = (
  record b { blocked_reason = or_text b.blocked_reason (or_text reason "target_unresolved") },
  id,
)
bound action (some marker, reason) b id = (
  record {
    markers = b.markers ++ marker ∷ [];
    by_action = (action.source_seq, marker) ∷ b.by_action;
    blocked_reason = b.blocked_reason;
    verified_target_count = suc b.verified_target_count;
  },
  suc id,
)

abbrev pub bind_actions : ReplayContext → List RuleAction → TargetBindings × ℕ → TargetBindings × ℕ
bind_actions c [] found = found
bind_actions c (action ∷ actions) (b, id) =
    bind_actions c actions
      (if action.has_target then bound action (c.saved_target action id) b id else (b, id))

unfoldable pub bind_saved_targets : ReplayContext → ReflexCandidate → TargetBindings
bind_saved_targets c candidate =
    (bind_actions c candidate.step.actions (
      record {
        markers = c.markers;
        by_action = [];
        blocked_reason = "";
        verified_target_count = 0;
      },
      next_id c.markers,
    )).0

abbrev pub target_of : ℕ → List (ℕ × Marker) → Option ℕ
target_of seq [] = none
target_of seq ((n, marker) ∷ rest) =
    let later = target_of seq rest in if nat_eq n seq then some marker.id else later

-- The parameter that an input of the request fills (`_resolved_actions`).
abbrev pub resolved_param : ReplayContext → RuleAction → Args
resolved_param c a =
    if is_empty a.input_slot
    then a.param
    else record a.param { text = input_value c a.input_slot; slot_name = a.input_slot }

-- The arguments of the action's tool, if it can be called.
unfoldable pub tool_args : RuleAction → Args → Option ℕ → Option Args
tool_args a param marker_id =
    if a.action == "click_marker"
    then (if is_some marker_id
        then some (record no_args { marker_id = marker_id; risk_level = a.risk_level })
        else none)
    else if a.action == "type_in_marker"
    then (if is_some marker_id && not (is_empty param.text)
        then some (record no_args {
          marker_id = marker_id;
          text = param.text;
          slot_name = param.slot_name;
          risk_level = a.risk_level;
        })
        else none)
    else if a.action == "scroll"
    then some (record no_args {
      marker_id = marker_id;
      direction = or_text param.direction "down";
      amount = or_text param.amount "page";
      risk_level = a.risk_level;
    })
    else if a.action == "press_key" && not (is_empty param.key)
    then some
        (record no_args { key = param.key; risk_level = or_text a.risk_level "safe_navigation" })
    else none
