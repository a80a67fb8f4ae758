-- ===== src/Examples/Cards.antt =====
-- The queue of job cards and the pages of a site, on a page with two results.
use l2c.Common.{ℕ, ◌+◌, ◌≤◌, ◌<◌, String, ◌≡◌, refl, true, none, some, List, [], ◌∷◌, arith}
use l2c.Common.Text.{append, strip, casefold, replace_char, keep_alnum, normalize_text}
use l2c.Worker.State.{
  Marker, Card, CardStatus, pending, active, done, WorkerState, create_worker_state,
}
use l2c.Site.{normalize_page_role, looks_like_job_detail_url}
use l2c.Examples.{ascii, sites}
use l2c.JobCards.Queue.{
  RawCard, card_id, show_nat, marker_by_id, job_card_match_text, is_same_job,
  can_select_pending_job_card, marker_bbox, kept_cards, normalize_job_card_queue, active_job_card,
  resolved_job_card_count, normalized_job_card, job_card_is_known,
}
use l2c.JobCards.Lifecycle.{complete_active_job_card, skip_active_job_card, reject_active_job_card}
use l2c.JobCards.Select.{card_request, next_job_card_request, job_card_marker_for_item}
use l2c.JobCards.Progress.{unresolved, ending_shrinks}
use l2c.JobCards.Kept.{Grows, normalize-Grows}
use l2c.JobCards.Numbers.{card_id-injective, bearing, normalize_collides}
use l2c.JobCards.Counting.{ending_counts}
use l2c.JobCards.Request.{OpensFirst, next_job_card_request-OpensFirst}

abbrev pub card : String → CardStatus → Card
card number status = record {
  queue_id = number;
  status = status;
  title = "backend";
  company = "acme";
  source_marker_id = some 1;
  source_marker_text = "backend";
  source_marker_bbox = 0 ∷ 0 ∷ 9 ∷ 9 ∷ [];
  source_observation_id = "o1";
  source_screenshot_path = "o1.png";
  skip_reason = "";
  rejection_reason = "";
  detail_url = "";
  job_id = none;
}

abbrev pub markers : List Marker
markers =
    record { id = 1; text = "backend"; bbox = 0 ∷ 0 ∷ 9 ∷ 9 ∷ []; kind = "text" }
    ∷ record { id = 2; text = "frontend"; bbox = 0 ∷ 9 ∷ 9 ∷ 18 ∷ []; kind = "text" }
    ∷ []

-- A page of results that has been read, with a queue.
abbrev pub listing : List Card → WorkerState
listing queue = record create_worker_state {
  observation = record create_worker_state.observation {
    observation_id = "o1";
    current_screenshot = "o1.png";
    current_url = "/list";
    current_page_role = "search";
    ocr_complete = true;
    current_markers = markers;
  };
  collection = record create_worker_state.collection { job_card_queue = queue };
}

abbrev opened : List Card
opened = card "card-1" active ∷ card "card-2" pending ∷ []

abbrev pub waiting : List Card
waiting = card "card-1" done ∷ card "card-2" pending ∷ []

abbrev raw : RawCard
raw = record { marker_id = 2; title = "frontend"; company = "acme" }

abbrev gap : List Card
gap = card "card-1" pending ∷ card "card-2" active ∷ []

ending_shrinks_example :
    (unresolved (complete_active_job_card opened) < 2)
    × (unresolved (skip_active_job_card opened "seen" "/job" (some 7)) < 2)
    × (unresolved (reject_active_job_card opened "seen" "/job") < 2)
unfolding active_job_card
ending_shrinks_example =
    ending_shrinks opened (card "card-1" active) "seen" "/job" (some 7) refl refl

ending_counts_example :
    (resolved_job_card_count (complete_active_job_card opened) ≡ resolved_job_card_count opened + 1)
    × (resolved_job_card_count (skip_active_job_card opened "seen" "/job" (some 7))
        ≡ resolved_job_card_count opened + 1)
    × (resolved_job_card_count (reject_active_job_card opened "seen" "/job")
        ≡ resolved_job_card_count opened + 0)
unfolding active_job_card
ending_counts_example =
    ending_counts opened (card "card-1" active) "seen" "/job" 7 ((refl, tt), (tt, tt)) refl refl
      (omega arith)

normalize-Grows_example :
    Grows ascii
      (listing gap)
      (kept_cards gap)
      (normalize_job_card_queue ascii (raw ∷ []) (listing gap))
normalize-Grows_example = normalize-Grows ascii (raw ∷ []) (listing gap)

-- The pending card 1 is dropped, card 2 is kept, and the selected card is numbered 2 again.
normalize_collides_example :
    2 ≤ bearing (card_id 2) (normalize_job_card_queue ascii (raw ∷ []) (listing gap))
unfolding kept_cards card_id append show_nat normalized_job_card marker_by_id marker_bbox strip
    job_card_is_known job_card_match_text is_same_job keep_alnum casefold normalize_text
normalize_collides_example =
    normalize_collides ascii raw (listing gap)
      (record {
        queue_id = "card-2";
        status = pending;
        title = "frontend";
        company = "acme";
        source_marker_id = some 2;
        source_marker_text = "frontend";
        source_marker_bbox = 0 ∷ 9 ∷ 9 ∷ 18 ∷ [];
        source_observation_id = "o1";
        source_screenshot_path = "o1.png";
        skip_reason = "";
        rejection_reason = "";
        detail_url = "";
        job_id = none;
      })
      refl refl (omega arith)

card_id-injective_example : ◌≡◌ {A = ℕ} 12 12
card_id-injective_example = card_id-injective 12 12 refl

next_job_card_request-OpensFirst_example :
    OpensFirst sites (listing waiting) markers (card_request (card "card-2" pending) 1)
unfolding next_job_card_request can_select_pending_job_card normalize_page_role replace_char
    casefold normalize_text looks_like_job_detail_url strip job_card_marker_for_item marker_by_id
next_job_card_request-OpensFirst_example =
    next_job_card_request-OpensFirst sites (listing waiting) markers
      (card_request (card "card-2" pending) 1) refl
