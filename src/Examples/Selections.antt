-- ===== src/Examples/Selections.antt =====
-- A stored rule that clicks a saved target on a page of search results, and one that is blocked.
use l2c.Common.{ℕ, String, ◌≡◌, refl, true, none, some, [], ◌∷◌, ◌==◌, is_some}
use l2c.Common.Text.{replace_char, casefold, normalize_text}
use l2c.Site.{normalize_page_role}
use l2c.Worker.State.{Marker, no_args}
use l2c.Selection.Stored.{RuleAction, Rule, ReplayContext}
use l2c.Selection.Rules.{select_reflex_replay}
use l2c.Selection.Accounts.{select_reflex_replay-rejected_count}
use l2c.Selection.Chosen.{IfChosen, select_reflex_replay-IfChosen}
use l2c.Examples.{ascii}

abbrev click_target : RuleAction
click_target = record {
  source_seq = 1;
  action = "click_marker";
  has_target = true;
  param = no_args;
  input_slot = "";
  risk_level = "safe_read";
}

abbrev rule : Rule
rule = record {
  inputs = "search_keyword" ∷ [];
  steps =
      (record {
        before_url_template = "/list";
        before_page_role = "search";
        actions = click_target ∷ [];
      })
      ∷ [];
}

abbrev target : ℕ → Marker
target n = record { id = n; text = ""; bbox = []; kind = "interaction_point" }

abbrev on_page : String → ReplayContext
on_page url = record {
  unicode = ascii;
  url_scope_matches = λ template current. template == current;
  saved_target = λ action n. (some (target n), "");
  markers = [];
  search_keyword = "qa";
  current_page_role = "search";
  current_url = url;
  blocked_rule_keys = "old" ∷ [];
  used_rule_keys = [];
  replay_session = none;
  rule_candidates = ("old", rule) ∷ ("new", rule) ∷ [];
}

chosen_on_list : is_some (select_reflex_replay (on_page "/list")).0 ≡ true
unfolding select_reflex_replay normalize_page_role replace_char casefold normalize_text
chosen_on_list = refl

select_reflex_replay-rejected_count_example :
    (select_reflex_replay (on_page "/other")).1.rejected_count ≡ 2
unfolding select_reflex_replay
select_reflex_replay-rejected_count_example =
    select_reflex_replay-rejected_count (on_page "/other") refl

select_reflex_replay-IfChosen_example :
    IfChosen (on_page "/list") (select_reflex_replay (on_page "/list")).0
select_reflex_replay-IfChosen_example = select_reflex_replay-IfChosen (on_page "/list")
