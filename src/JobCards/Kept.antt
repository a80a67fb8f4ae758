-- ===== src/JobCards/Kept.antt =====
-- What a new selection of cards keeps and adds.
use l2c.Common.{
  ◌+◌, ◌≡◌, refl, ◌∙◌, true, false, Option, none, some, List, [], ◌∷◌, ◌++◌, arith, length,
  count_if, count_if-append, Bool-cases, inl, inr, is_some,
}
use l2c.Common.Text.{Unicode, is_empty}
use l2c.Worker.State.{Card, pending, WorkerState}
use l2c.JobCards.Queue.{
  RawCard, is_resolved, marker_by_id, job_card_is_known, card_id, normalized_job_card, add_card,
  add_cards, kept_cards, normalize_job_card_queue, resolved_job_card_count,
}

-- What a card that enters the queue of `n` cards is: pending, numbered n + 1, taken from the current observation, its marker is on
-- the screen, and it is not a job that the queue before it knows.
pub record IsFresh (u : Unicode) (s : WorkerState) (before : List Card) (card : Card) : Type 0 where
  pub waits : card.status ≡ pending
  pub number : card.queue_id ≡ card_id (length before + 1)
  pub titled : is_empty card.title ≡ false
  pub seen : card.source_observation_id ≡ s.observation.observation_id
  pub on_screen : is_some (marker_by_id s.observation.current_markers card.source_marker_id) ≡ true
  pub new : job_card_is_known u card before ≡ false

-- The queue grows by cards that are fresh with respect to what stands before each.
pub data Grows (u : Unicode) (s : WorkerState) (before : List Card) : List Card → Type 0 where
  same : Grows u s before before
  more :
      {queue : List Card} (card : Card) {longer : List Card}
      → Grows u s before queue
      → IsFresh u s queue card
      → longer ≡ queue ++ card ∷ []
      → Grows u s before longer

pub normalized-IsFresh :
    (u : Unicode) (s : WorkerState) (raw : RawCard) (queue : List Card) (card : Card)
    → normalized_job_card u raw s.observation.current_markers queue s.observation.observation_id
        s.observation.current_screenshot
      ≡ some card
    → job_card_is_known u card queue ≡ false
    → IsFresh u s queue card
unfolding normalized_job_card
normalized-IsFresh u s raw queue card h k = ground arith

module _ (u : Unicode) (s : WorkerState) (before : List Card) where
  abbrev scan : RawCard → List Card → Option Card
  scan raw queue =
      normalized_job_card u raw s.observation.current_markers queue s.observation.observation_id
        s.observation.current_screenshot

  Grows-add_card :
      (raw : RawCard) (queue : List Card) (c : Option Card)
      → scan raw queue ≡ c
      → Grows u s before queue
      → Grows u s before (add_card u c queue)
  unfolding add_card
  Grows-add_card raw queue none e g = g
  Grows-add_card raw queue (some card) e g = elim (Bool-cases (job_card_is_known u card queue)) [
    | inl known ↦ rw known g
    | inr new ↦ rw new (more card g (normalized-IsFresh u s raw queue card e new) refl)
  ]

  Grows-add_cards :
      (raws : List RawCard) (queue : List Card)
      → Grows u s before queue
      → Grows u s before (
          add_cards u s.observation.current_markers s.observation.observation_id
            s.observation.current_screenshot raws queue)
  unfolding add_cards
  Grows-add_cards [] queue g = g
  Grows-add_cards (raw ∷ raws) queue g =
      Grows-add_cards raws (add_card u (scan raw queue) queue)
        (Grows-add_card raw queue (scan raw queue) refl g)

-- A new selection keeps every card of the queue that is not marked pending, in order, and appends
-- only fresh cards: pending, numbered by their place, with a title and a marker of the current
-- screen, and none of them a job that the queue before it holds.
pub normalize-Grows :
    (u : Unicode) (cards : List RawCard) (s : WorkerState)
    → Grows u s (kept_cards s.collection.job_card_queue) (normalize_job_card_queue u cards s)
unfolding normalize_job_card_queue
normalize-Grows u cards s =
    Grows-add_cards u s (kept_cards s.collection.job_card_queue) cards
      (kept_cards s.collection.job_card_queue) same

resolved-kept :
    (queue : List Card) → count_if is_resolved (kept_cards queue) ≡ count_if is_resolved queue
unfolding kept_cards
resolved-kept [] = refl
resolved-kept (c ∷ cs) = ground (arith, resolved-kept cs)

resolved-Grows :
    (u : Unicode) (s : WorkerState) {before queue : List Card}
    → Grows u s before queue
    → count_if is_resolved queue ≡ count_if is_resolved before
resolved-Grows u s same = refl
resolved-Grows u s (more {queue = q} card g f e) =
    rw e (
      rw (count_if-append is_resolved q (card ∷ []))
        (ground (arith, resolved-Grows u s g, f.waits)))

-- A new selection changes nothing of what counts towards the target: the number of resolved cards.
pub resolved-normalize :
    (u : Unicode) (cards : List RawCard) (s : WorkerState)
    → resolved_job_card_count (normalize_job_card_queue u cards s)
      ≡ resolved_job_card_count s.collection.job_card_queue
unfolding resolved_job_card_count
resolved-normalize u cards s =
    resolved-Grows u s (normalize-Grows u cards s) ∙ resolved-kept s.collection.job_card_queue
