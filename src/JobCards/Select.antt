-- ===== src/JobCards/Select.antt =====
-- job_card_queue.py: the marker of a queued card on the current screen, the next card's request,
-- and the need to go back to the list.
use l2c.Common.{
  ℕ, String, Bool, true, false, ◌&&◌, ◌||◌, not, Option, none, some, List, [], ◌∷◌, ◌==◌, ltb, leb,
  nat_eq, length, any, min, max, is_some, if◌then◌else◌,
}
use l2c.Common.Text.{Unicode, is_empty, or_text, append, contains, text_length, before_char}
use l2c.Worker.State.{
  Marker, Card, Review, ReviewStatus, source_incomplete, invalid_target, ActionRequest, no_args,
  TransitionRequest, WorkerState,
}
use l2c.Site.{Sites, looks_like_job_detail_url}
use l2c.JobCards.Queue.{
  marker_by_id, job_card_match_text, pending_job_cards, active_job_card, resolved_job_card_count,
  can_select_pending_job_card,
}

-- The tuple that the candidates are sorted by.
pub record Candidate : Type 0 where
  pub exact : Bool
  pub size : ℕ
  pub marker_id : ℕ

unfoldable pub candidates : Unicode → String → List Marker → List Candidate
candidates u saved [] = []
candidates u saved (marker ∷ markers) =
    let current = job_card_match_text u marker.text in
    let rest = candidates u saved markers in
    if is_empty current
      || (not (current == saved) && not (contains saved current) && not (contains current saved))
    then rest
    else (record {
      exact = current == saved;
      size = min (text_length saved) (text_length current);
      marker_id = marker.id;
    })
      ∷ rest

abbrev pub bool_eq : Bool → Bool → Bool
bool_eq true b = b
bool_eq false b = not b

-- `(-a.exact, -a.size) == (-b.exact, -b.size)` and `<`
abbrev pub same_rank : Candidate → Candidate → Bool
same_rank a b = bool_eq a.exact b.exact && nat_eq a.size b.size

abbrev pub outranks : Candidate → Candidate → Bool
outranks a b = (a.exact && not b.exact) || (bool_eq a.exact b.exact && ltb b.size a.size)

abbrev pub sorts_before : Candidate → Candidate → Bool
sorts_before a b = outranks a b || (same_rank a b && leb a.marker_id b.marker_id)

unfoldable pub insert_candidate : Candidate → List Candidate → List Candidate
insert_candidate c [] = c ∷ []
insert_candidate c (d ∷ ds) =
    let rest = insert_candidate c ds in if sorts_before c d then c ∷ d ∷ ds else d ∷ rest

unfoldable pub sort_candidates : List Candidate → List Candidate
unfolding insert_candidate
sort_candidates [] = []
sort_candidates (c ∷ cs) = insert_candidate c (sort_candidates cs)

-- A marker and the reason that comes with it.
abbrev pub Choice : Type 0
Choice = Option ℕ × String

unfoldable pub best_choice : List Candidate → Choice
best_choice [] = (none, "current_marker_identity_missing")
best_choice (best ∷ []) = (some best.marker_id, "current_marker_identity_match")
best_choice (best ∷ second ∷ _) =
    if same_rank best second
    then (none, "current_marker_identity_ambiguous")
    else (some best.marker_id, "current_marker_identity_match")

unfoldable pub match_by_title : Unicode → Card → List Marker → Choice
unfolding candidates sort_candidates best_choice
match_by_title u item markers =
    let saved = job_card_match_text u (or_text item.source_marker_text item.title) in
    if is_empty saved
    then (none, "queued_card_title_missing")
    else best_choice (sort_candidates (candidates u saved markers))

abbrev pub source_or : Choice → Option Marker → Choice
source_or choice (some marker) = (some marker.id, "source_observation_marker")
source_or choice none = choice

unfoldable pub job_card_marker_for_item : Unicode → Card → List Marker → String → Choice
unfolding match_by_title
job_card_marker_for_item u item markers observation_id =
    if not (is_empty observation_id) && observation_id == item.source_observation_id
    then source_or (match_by_title u item markers) (marker_by_id markers item.source_marker_id)
    else match_by_title u item markers

-- The request of `next_job_card_request`: one click, with the card's number as its metadata.
abbrev pub card_request : Card → ℕ → ActionRequest
card_request item marker_id = record {
  source = "job_card_queue";
  observation_id = "";
  summary = "next queued job card";
  tool_calls =
      (record {
        name = "click_marker";
        call_id = append "job_card_queue_" item.queue_id;
        args = record no_args { marker_id = some marker_id; target_label = item.title };
        queue_id = item.queue_id;
        transition_source = "";
      })
      ∷ [];
  transition_actions = [];
  expected_effect = none;
  before_page_role = "";
}

abbrev pub request_or_reason : Card → Choice → Option ActionRequest × String
request_or_reason item (none, reason) = (none, reason)
request_or_reason item (some marker_id, reason) = (some (card_request item marker_id), reason)

abbrev pub request_for_first :
    Unicode → String → List Marker → Option Card → List Card → Option ActionRequest × String
request_for_first u oid markers open_card [] = (none, "queue_empty")
request_for_first u oid markers (some card) (item ∷ _) = (none, "active_card_not_completed")
request_for_first u oid markers none (item ∷ _) =
    request_or_reason item (job_card_marker_for_item u item markers oid)

unfoldable pub next_job_card_request :
    Sites → WorkerState → List Marker → Option ActionRequest × String
next_job_card_request sites s markers =
    let queue = s.collection.job_card_queue in
    if not (can_select_pending_job_card sites s)
    then (none, "pending_card_not_selectable")
    else request_for_first sites.unicode s.observation.observation_id markers
        (active_job_card queue) (pending_job_cards queue)

abbrev pub is_rejecting : ReviewStatus → Bool
is_rejecting source_incomplete = true
is_rejecting invalid_target = true
is_rejecting _ = false

-- The review that turned down the page at the current URL, fragments aside.
unfoldable pub rejected_detail : Option Review → String → Bool
rejected_detail none current_url = false
rejected_detail (some review) current_url =
    is_rejecting review.status && before_char b'#' review.url == before_char b'#' current_url

abbrev pub request_text : (TransitionRequest → String) → Option TransitionRequest → String
request_text field none = ""
request_text field (some r) = field r

unfoldable pub needs_job_results_navigation : Sites → WorkerState → Bool
unfolding rejected_detail
needs_job_results_navigation sites s =
    let result = s.transition.transition_result in
    let action = request_text (λ r. r.action) result.request in
    let source = request_text (λ r. r.source) result.request in
    let outcome = or_text result.outcome result.reason in
    let url = s.observation.current_url in
    let queue = s.collection.job_card_queue in
    let captures = s.collection.capture_urls in
    let completed =
      any (λ u. u == url) captures
      || outcome == "existing_job_detail"
      || rejected_detail s.collection.last_job_review url in
    let continuing =
      source == "job_results_navigation"
      && (action == "go_back" || action == "close_current_tab") in
    let resolved = max (length captures) (resolved_job_card_count queue) in
    let more =
      leb 1 (length (pending_job_cards queue))
      || (leb 1 s.target_count && ltb resolved s.target_count) in
    if not completed && not continuing
    then false
    else if is_some (active_job_card queue)
    then false
    else if not more
    then false
    else s.observation.current_page_role == "job_detail" || looks_like_job_detail_url sites url
