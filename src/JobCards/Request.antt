-- ===== src/JobCards/Request.antt =====
-- The request that opens the next queued card.
use mathlib.Core.Option.{none-ne-some}
use l2c.Common.{
  ℕ, String, ◌≡◌, refl, true, false, Option, none, some, List, [], ◌∷◌, arith, Bool-cases, inl, inr,
  ◌==◌,
}
use l2c.Common.Text.{Unicode}
use l2c.Worker.State.{Marker, Card, ActionRequest, WorkerState}
use l2c.Site.{Sites, normalize_page_role, looks_like_job_detail_url}
use l2c.JobCards.Queue.{pending_job_cards, active_job_card, can_select_pending_job_card}
use l2c.JobCards.Select.{
  Choice, card_request, request_or_reason, request_for_first, job_card_marker_for_item,
  next_job_card_request,
}
use l2c.JobCards.Marker.{shows, job_card_marker_for_item-on_screen}

-- The request clicks the first pending card, on a marker of the screen, on an OCR-complete page of
-- search results, while no card is active.
pub record OpensFirst (sites : Sites) (s : WorkerState) (markers : List Marker) (r : ActionRequest)
    : Type 0 where
  pub item : Card
  pub others : List Card
  pub marker : ℕ
  pub waiting : pending_job_cards s.collection.job_card_queue ≡ item ∷ others
  pub idle : active_job_card s.collection.job_card_queue ≡ none
  pub made : r ≡ card_request item marker
  pub visible : shows marker markers ≡ true
  pub read : s.observation.ocr_complete ≡ true
  pub listed :
      (normalize_page_role sites.unicode s.observation.current_page_role == "search") ≡ true
  pub not_detail : looks_like_job_detail_url sites s.observation.current_url ≡ false

-- What the first pending card, the active card and the marker make of the request.
record Made (u : Unicode) (oid : String) (markers : List Marker) (open_card : Option Card)
    (queue : List Card) (r : ActionRequest) : Type 0 where
  item : Card
  others : List Card
  marker : ℕ
  waiting : queue ≡ item ∷ others
  idle : open_card ≡ none
  made : r ≡ card_request item marker
  visible : shows marker markers ≡ true

chosen :
    (u : Unicode) (oid : String) (markers : List Marker) (item : Card) (others : List Card)
    (c : Choice) (r : ActionRequest)
    → job_card_marker_for_item u item markers oid ≡ c
    → (request_or_reason item c).0 ≡ some r
    → Made u oid markers none (item ∷ others) r
chosen u oid markers item others (none, reason) r e h = absurd (cc)
chosen u oid markers item others (some i, reason) r e h = record {
  item = item;
  others = others;
  marker = i;
  waiting = refl;
  idle = refl;
  made = cc;
  visible = job_card_marker_for_item-on_screen u item markers oid i (cc);
}

request-Made :
    (u : Unicode) (oid : String) (markers : List Marker) (open_card : Option Card)
    (queue : List Card) (r : ActionRequest)
    → (request_for_first u oid markers open_card queue).0 ≡ some r
    → Made u oid markers open_card queue r
request-Made u oid markers open_card [] r h = absurd (cc)
request-Made u oid markers (some card) (item ∷ others) r h = absurd (cc)
request-Made u oid markers none (item ∷ others) r h =
    chosen u oid markers item others (job_card_marker_for_item u item markers oid) r refl h

module _ (sites : Sites) (s : WorkerState) (e : can_select_pending_job_card sites s ≡ true) where
  selectable-read : s.observation.ocr_complete ≡ true
  unfolding can_select_pending_job_card
  selectable-read = ground arith

  selectable-listed :
      (normalize_page_role sites.unicode s.observation.current_page_role == "search") ≡ true
  unfolding can_select_pending_job_card
  selectable-listed = ground arith

  selectable-not_detail : looks_like_job_detail_url sites s.observation.current_url ≡ false
  unfolding can_select_pending_job_card
  selectable-not_detail = ground arith

-- Whenever a request for the next card is made, it clicks the first pending card of the queue, on a
-- marker of the given screen; the page is an OCR-complete page of search results and no card is
-- active.
pub next_job_card_request-OpensFirst :
    (sites : Sites) (s : WorkerState) (markers : List Marker) (r : ActionRequest)
    → (next_job_card_request sites s markers).0 ≡ some r
    → OpensFirst sites s markers r
unfolding next_job_card_request
next_job_card_request-OpensFirst sites s markers r h =
    elim (Bool-cases (can_select_pending_job_card sites s)) [
      | inl e ↦
          let m =
            request-Made sites.unicode s.observation.observation_id markers
              (active_job_card s.collection.job_card_queue)
              (pending_job_cards s.collection.job_card_queue) r (rw e at h) in
          record {
            item = m.item;
            others = m.others;
            marker = m.marker;
            waiting = m.waiting;
            idle = m.idle;
            made = m.made;
            visible = m.visible;
            read = selectable-read sites s e;
            listed = selectable-listed sites s e;
            not_detail = selectable-not_detail sites s e;
          }
      | inr e ↦ absurd (none-ne-some r (rw e at h))
    ]
