-- ===== src/Execution/Permission.antt =====
-- agent/runtime/action_permissions.py: the contract that a collection intent makes, and the reason
-- for which an action is outside of it. The host of a URL (urllib) and the sorting of texts are
-- parameters.
use l2c.Common.{
  String, Bool, ◌&&◌, ◌||◌, not, Option, none, some, List, [], ◌∷◌, ◌++◌, map, keep, any, ◌==◌,
  nat_eq, length, if◌then◌else◌,
}
use l2c.Common.Text.{Unicode, is_empty, append, strip, casefold, joined_words, ends_with}
use l2c.Worker.State.{Args, Contract}
use l2c.Worker.Replay.{holds}

-- `UI_ACTIONS` of shared/schema/execution_record_schema.py.
abbrev pub ui_actions : List String
ui_actions =
    "click_marker" ∷ "type_in_marker" ∷ "press_key" ∷ "go_back" ∷ "close_current_tab" ∷ "switch_tab"
    ∷ "scroll" ∷ "open_browser" ∷ []

-- A dumped value: a text, a list or a dictionary of values, or anything else.
mutual
  pub data Value : Type 0 where
    text : String → Value
    nested : Values → Value
    opaque : Value

  pub data Values : Type 0 where
    empty : Values
    also : Value → Values → Values

-- A set of texts as a list without repetitions.
abbrev pub insert_text : String → List String → List String
insert_text t ts = if holds t ts then ts else ts ++ t ∷ []

module _ (u : Unicode) where
  unfoldable pub normalized_text : String → String
  unfolding casefold joined_words
  normalized_text value = casefold u (joined_words u value)

  unfoldable mutual
    unfolding normalized_text

    pub collect_input_values : Value → List String → List String
    collect_input_values (text s) values =
        let normalized = normalized_text s in
        if is_empty normalized then values else insert_text normalized values
    collect_input_values (nested vs) values = collect_all vs values
    collect_input_values opaque values = values

    pub collect_all : Values → List String → List String
    collect_all empty values = values
    collect_all (also v vs) values = collect_all vs (collect_input_values v values)

  unfoldable pub build_public_collection_permission_contract :
      (List String → List String) → List String → Value → Contract
  unfolding collect_input_values
  build_public_collection_permission_contract sort_texts domains intent = record {
    allowed_domains = domains;
    allowed_input_values = sort_texts (collect_input_values intent []);
  }

  abbrev pub known_domains : Contract → List String
  known_domains c =
      map (λ d. casefold u (strip u d)) (keep (λ d. not (is_empty (strip u d))) c.allowed_domains)

  abbrev pub known_values : Contract → List String
  known_values c = keep (λ v. not (is_empty v)) (map normalized_text c.allowed_input_values)

  module _ (hostname : String → String) where
    unfoldable pub url_host_allowed : String → List String → Bool
    unfolding ends_with append
    url_host_allowed url domains =
        let host = casefold u (hostname url) in
        not (is_empty host)
        && any (λ domain. host == domain || ends_with (append "." domain) host) domains

    abbrev pub contract_reason : Contract → String → Args → String → String
    contract_reason c action_name args source =
        let domains = known_domains c in
        let values = known_values c in
        let risk = casefold u (strip u args.risk_level) in
        if action_name == "open_browser"
          && not (nat_eq (length domains) 0)
          && not (url_host_allowed args.url domains)
        then "task_contract_external_domain"
        else if action_name == "type_in_marker"
            && not (nat_eq (length values) 0)
            && not (holds (normalized_text args.text) values)
        then "task_contract_input_not_authorized"
        else if source == "llm"
            && holds action_name ui_actions
            && not (risk == "safe_read" || risk == "safe_navigation" || risk == "sensitive")
        then "task_contract_risk_not_declared"
        else ""

    unfoldable pub task_permission_reason : Option Contract → String → Args → String → String
    unfolding url_host_allowed normalized_text
    task_permission_reason none action_name args source = ""
    task_permission_reason (some c) action_name args source =
        contract_reason c action_name args source
