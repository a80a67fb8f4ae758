-- ===== src/JobCards/Queue.antt =====
-- job_card_queue.py: how cards enter the queue, and what is asked of the queue as a whole.
use l2c.Common.{
  ℕ, zero, suc, ◌+◌, ◌/◌, ◌%◌, String, Bool, true, false, ◌&&◌, ◌||◌, not, Option, none, some, List,
  [], ◌∷◌, ◌++◌, ◌==◌, ltb, leb, nat_eq, length, keep, first, any, count_if, is_some, if◌then◌else◌,
}
use l2c.Common.Text.{
  Unicode, is_empty, append, strip, casefold, to_lower, keep_alnum, normalize_text,
}
pub use l2c.Worker.State.{RawCard}
use l2c.Worker.State.{
  Marker, CardStatus, missing, pending, active, done, skipped, Card, WorkerState,
}
use l2c.Site.{Sites, normalize_page_role, looks_like_job_detail_url}

-- `str(status or "pending") == "pending"`
abbrev pub is_pending : CardStatus → Bool
is_pending missing = true
is_pending pending = true
is_pending _ = false

-- `str(status or "") == "pending"`, `status == "active"`, `str(status or "") == "done"`
abbrev pub is_marked_pending : CardStatus → Bool
is_marked_pending pending = true
is_marked_pending _ = false

abbrev pub is_active : CardStatus → Bool
is_active active = true
is_active _ = false

abbrev pub is_done : CardStatus → Bool
is_done done = true
is_done _ = false

abbrev pub is_skipped : CardStatus → Bool
is_skipped skipped = true
is_skipped _ = false

-- `str(status or "pending") in {"pending", "active"}`
abbrev pub is_unresolved : CardStatus → Bool
is_unresolved s = is_pending s || is_active s

unfoldable pub marker_by_id : List Marker → Option ℕ → Option Marker
marker_by_id markers none = none
marker_by_id markers (some target) = first (λ m. nat_eq m.id target) markers

unfoldable pub job_card_match_text : Unicode → String → String
job_card_match_text u value = keep_alnum u (casefold u (normalize_text u value))

-- The test that the loop of `job_card_is_known` makes of one known card.
unfoldable pub is_same_job : Unicode → String → String → Card → Bool
is_same_job u title company known =
    let known_title = job_card_match_text u known.title in
    let known_company = job_card_match_text u known.company in
    title == known_title && (is_empty company || is_empty known_company || company == known_company)

unfoldable pub job_card_is_known : Unicode → Card → List Card → Bool
unfolding is_same_job
job_card_is_known u card known =
    let title = job_card_match_text u card.title in
    let company = job_card_match_text u card.company in
    if is_empty title then false else any (is_same_job u title company) known

-- The decimal digits of a number, the last one first in the recursion.
unfoldable pub digit : ℕ → String
digit zero = "0"
digit (suc zero) = "1"
digit (suc (suc zero)) = "2"
digit (suc (suc (suc zero))) = "3"
digit (suc (suc (suc (suc zero)))) = "4"
digit (suc (suc (suc (suc (suc zero))))) = "5"
digit (suc (suc (suc (suc (suc (suc zero)))))) = "6"
digit (suc (suc (suc (suc (suc (suc (suc zero))))))) = "7"
digit (suc (suc (suc (suc (suc (suc (suc (suc zero)))))))) = "8"
digit _ = "9"

-- `str(n)`; n + 1 rounds are more than n has digits.
unfoldable pub show_fuel : ℕ → ℕ → String
unfolding digit
show_fuel zero n = ""
show_fuel (suc f) n =
    let more = append (show_fuel f (n / 10)) (digit (n % 10)) in if ltb n 10 then digit n else more

unfoldable pub show_nat : ℕ → String
unfolding show_fuel
show_nat n = show_fuel (suc n) n

-- `f"card-{n}"`
unfoldable pub card_id : ℕ → String
card_id n = append "card-" (show_nat n)

-- `marker_bbox`: four numbers, or four zeros.
unfoldable pub marker_bbox : Marker → List ℕ
marker_bbox m = if nat_eq (length m.bbox) 4 then m.bbox else 0 ∷ 0 ∷ 0 ∷ 0 ∷ []

abbrev pub new_card : Unicode → RawCard → Marker → ℕ → String → String → Card
new_card u raw marker n observation_id screenshot_path = record {
  queue_id = card_id (n + 1);
  status = pending;
  title = strip u raw.title;
  company = strip u raw.company;
  source_marker_id = some raw.marker_id;
  source_marker_text = strip u marker.text;
  source_marker_bbox = marker_bbox marker;
  source_observation_id = observation_id;
  source_screenshot_path = screenshot_path;
  skip_reason = "";
  rejection_reason = "";
  detail_url = "";
  job_id = none;
}

unfoldable pub normalized_job_card :
    Unicode → RawCard → List Marker → List Card → String → String → Option Card
normalized_job_card u raw markers queue observation_id screenshot_path =
    elim (marker_by_id markers (some raw.marker_id)) [
      | none ↦ none
      | some marker ↦
          if is_empty (strip u raw.title)
          then none
          else some (new_card u raw marker (length queue) observation_id screenshot_path)
    ]

-- One round of the loop of `normalize_job_card_queue`.
unfoldable pub add_card : Unicode → Option Card → List Card → List Card
add_card u none queue = queue
add_card u (some card) queue = if job_card_is_known u card queue then queue else queue ++ card ∷ []

unfoldable pub add_cards :
    Unicode → List Marker → String → String → List RawCard → List Card → List Card
unfolding add_card
add_cards u markers oid path [] queue = queue
add_cards u markers oid path (raw ∷ raws) queue =
    add_cards u markers oid path raws
      (add_card u (normalized_job_card u raw markers queue oid path) queue)

-- The cards that a new selection keeps.
unfoldable pub kept_cards : List Card → List Card
kept_cards queue = keep (λ c. not (is_marked_pending c.status)) queue

unfoldable pub normalize_job_card_queue : Unicode → List RawCard → WorkerState → List Card
unfolding kept_cards add_cards
normalize_job_card_queue u cards s =
    add_cards u s.observation.current_markers s.observation.observation_id
      s.observation.current_screenshot cards (kept_cards s.collection.job_card_queue)

unfoldable pub pending_job_cards : List Card → List Card
pending_job_cards queue = keep (λ c. is_pending c.status) queue

unfoldable pub active_job_card : List Card → Option Card
active_job_card queue = first (λ c. is_active c.status) queue

unfoldable pub has_unresolved_job_card_queue : WorkerState → Bool
has_unresolved_job_card_queue s = any (λ c. is_unresolved c.status) s.collection.job_card_queue

-- A job id counts if its text is made of digits and it is positive.
abbrev pub has_job_id : Option ℕ → Bool
has_job_id none = false
has_job_id (some n) = leb 1 n

abbrev pub is_resolved : Card → Bool
is_resolved c = is_done c.status || (is_skipped c.status && has_job_id c.job_id)

unfoldable pub resolved_job_card_count : List Card → ℕ
resolved_job_card_count queue = count_if is_resolved queue

unfoldable pub job_card_queue_scope_complete : Unicode → List Card → String → ℕ → Bool
unfolding resolved_job_card_count
job_card_queue_scope_complete u queue count_mode target_count =
    if nat_eq (length queue) 0 || any (λ c. is_unresolved c.status) queue
    then false
    else if to_lower u (strip u count_mode) == "visible_all"
    then true
    else leb 1 target_count && leb target_count (resolved_job_card_count queue)

unfoldable pub can_select_pending_job_card : Sites → WorkerState → Bool
unfolding pending_job_cards active_job_card
can_select_pending_job_card sites s =
    let queue = s.collection.job_card_queue in
    s.observation.ocr_complete
    && normalize_page_role sites.unicode s.observation.current_page_role == "search"
    && not (looks_like_job_detail_url sites s.observation.current_url)
    && leb 1 (length (pending_job_cards queue))
    && not (is_some (active_job_card queue))
