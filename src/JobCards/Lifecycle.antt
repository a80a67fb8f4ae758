-- ===== src/JobCards/Lifecycle.antt =====
-- job_card_queue.py: how a card becomes active and how the active card ends.
use l2c.Common.{
  ℕ, String, Bool, ◌&&◌, not, Option, none, some, List, [], ◌∷◌, map, ◌==◌, any, if◌then◌else◌,
}
use l2c.Common.Text.{Unicode, is_empty, strip}
use l2c.Worker.State.{Card, active, done, skipped, rejected, WorkerState}
use l2c.JobCards.Queue.{is_marked_pending, active_job_card}

unfoldable pub job_detail_key_from_state : Unicode → WorkerState → String
job_detail_key_from_state u s = elim (active_job_card s.collection.job_card_queue) [
  | none ↦ ""
  | some card ↦ strip u card.queue_id
]

-- The loop of `activate_job_card`: the first pending card with the number becomes active.
unfoldable pub activate_first : String → List Card → List Card
activate_first queue_id [] = []
activate_first queue_id (card ∷ cards) =
    let rest = activate_first queue_id cards in
    if is_marked_pending card.status && queue_id == card.queue_id
    then record card { status = active } ∷ cards
    else card ∷ rest

unfoldable pub activate_job_card : Unicode → List Card → String → List Card
unfolding activate_first
activate_job_card u queue raw_id =
    let queue_id = strip u raw_id in
    if is_empty queue_id then queue else activate_first queue_id queue

unfoldable pub job_card_click_matches_queue : Unicode → List Card → String → Bool
job_card_click_matches_queue u queue raw_id =
    let queue_id = strip u raw_id in
    not (is_empty queue_id) && any (λ card. queue_id == card.queue_id) queue

-- The loop that three functions share: every card that bears the active card's number.
unfoldable pub update_cards : String → (Card → Card) → List Card → List Card
update_cards active_id change queue =
    map
      (λ card. if not (is_empty active_id) && card.queue_id == active_id then change card else card)
      queue

unfoldable pub update_active : (Card → Card) → List Card → List Card
unfolding update_cards
update_active change queue = elim (active_job_card queue) [
  | none ↦ queue
  | some card ↦ update_cards card.queue_id change queue
]

abbrev pub complete_card : Card → Card
complete_card card = record card { status = done }

abbrev pub keep_or : Option ℕ → Option ℕ → Option ℕ
keep_or none old = old
keep_or (some n) old = some n

abbrev pub skip_card : String → String → Option ℕ → Card → Card
skip_card reason url job_id card = record card {
  status = skipped;
  skip_reason = reason;
  detail_url = url;
  job_id = keep_or job_id card.job_id;
}

abbrev pub reject_card : String → String → Card → Card
reject_card reason url card = record card {
  status = rejected;
  rejection_reason = reason;
  detail_url = url;
}

unfoldable pub complete_active_job_card : List Card → List Card
unfolding update_active
complete_active_job_card queue = update_active complete_card queue

unfoldable pub skip_active_job_card : List Card → String → String → Option ℕ → List Card
unfolding update_active
skip_active_job_card queue reason url job_id = update_active (skip_card reason url job_id) queue

unfoldable pub reject_active_job_card : List Card → String → String → List Card
unfolding update_active
reject_active_job_card queue reason url = update_active (reject_card reason url) queue
