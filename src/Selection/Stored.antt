-- ===== src/Selection/Stored.antt =====
-- The stored rules (shared/schema/experience_rule_schema.py) and what their choice is made in
-- (agent/recipe/replay.py).
use l2c.Common.{ℕ, String, Bool, Option, none, some, List, ◌==◌, if◌then◌else◌}
use l2c.Common.Text.{Unicode}
use l2c.Worker.State.{Marker, Args, ReplaySession}

-- `RuleAction`: `input_slot` is empty where the action takes no input.
pub record RuleAction : Type 0 where
  pub source_seq : ℕ
  pub action : String
  pub has_target : Bool
  pub param : Args
  pub input_slot : String
  pub risk_level : String

-- `ExperienceRuleStep`, with the scope that it starts from.
pub record RuleStep : Type 0 where
  pub before_url_template : String
  pub before_page_role : String
  pub actions : List RuleAction

-- `ExperienceRule`, with the names of its inputs.
pub record Rule : Type 0 where
  pub inputs : List String
  pub steps : List RuleStep

-- `ReflexReplayContext`, with what binds targets: the matching of URL scopes, and the marker that a
-- saved target resolves to on this screen at an id, or the reason why there is none.
pub record ReplayContext : Type 0 where
  pub unicode : Unicode
  pub url_scope_matches : String → String → Bool
  pub saved_target : RuleAction → ℕ → Option Marker × String
  pub markers : List Marker
  pub search_keyword : String
  pub current_page_role : String
  pub current_url : String
  pub blocked_rule_keys : List String
  pub used_rule_keys : List String
  pub replay_session : Option ReplaySession
  pub rule_candidates : List (String × Rule)

abbrev pub session_key : Option ReplaySession → String
session_key none = ""
session_key (some session) = session.recipe_key

-- `inputs.value(name)`
abbrev pub input_value : ReplayContext → String → String
input_value c name = if name == "search_keyword" then c.search_keyword else ""

-- `ReflexCandidate`
pub record ReflexCandidate : Type 0 where
  pub rule_key : String
  pub step : RuleStep
  pub step_index : ℕ
