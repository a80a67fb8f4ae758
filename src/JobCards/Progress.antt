-- ===== src/JobCards/Progress.antt =====
-- The lifecycle of a queued card, by the numbers of active and of unresolved cards.
use l2c.Common.{
  ℕ, suc, ◌≤◌, ◌<◌, String, ◌≡◌, refl, true, false, Option, none, some, List, [], ◌∷◌, arith,
  count_if, ==-refl,
}
use l2c.Common.Text.{Unicode, is_empty, strip}
use l2c.Worker.State.{Card}
use l2c.JobCards.Queue.{is_active, is_unresolved, active_job_card}
use l2c.JobCards.Lifecycle.{
  activate_first, activate_job_card, update_cards, update_active, complete_card, skip_card,
  reject_card, complete_active_job_card, skip_active_job_card, reject_active_job_card,
}

abbrev pub actives : List Card → ℕ
actives queue = count_if (λ c. is_active c.status) queue

abbrev pub unresolved : List Card → ℕ
unresolved queue = count_if (λ c. is_unresolved c.status) queue

-- A change that ends a card.
abbrev Ends : (Card → Card) → Type 0
Ends change = (c : Card) → is_unresolved (change c).status ≡ false

active_card-is_active :
    (queue : List Card) (card : Card)
    → active_job_card queue ≡ some card
    → is_active card.status ≡ true
unfolding active_job_card
active_card-is_active [] card h = ground arith
active_card-is_active (c ∷ cs) card h = ground (arith, active_card-is_active cs card)

actives-activate_first :
    (i : String) (queue : List Card) → actives (activate_first i queue) ≤ suc (actives queue)
unfolding activate_first
actives-activate_first i [] = omega arith
actives-activate_first i (c ∷ cs) = ground (arith, actives-activate_first i cs)

unresolved-activate_first :
    (i : String) (queue : List Card) → unresolved (activate_first i queue) ≡ unresolved queue
unfolding activate_first
unresolved-activate_first i [] = refl
unresolved-activate_first i (c ∷ cs) = ground (arith, unresolved-activate_first i cs)

module _ (i : String) (change : Card → Card) (ends : Ends change) where
  unresolved-update_cards :
      (queue : List Card) → unresolved (update_cards i change queue) ≤ unresolved queue
  unfolding update_cards
  unresolved-update_cards [] = omega arith
  unresolved-update_cards (c ∷ cs) = ground (arith, unresolved-update_cards cs, ends c)

module _ (change : Card → Card) (ends : Ends change) where
  unresolved-update_cards_found :
      (queue : List Card) (card : Card)
      → active_job_card queue ≡ some card
      → is_empty card.queue_id ≡ false
      → unresolved (update_cards card.queue_id change queue) < unresolved queue
  unfolding update_cards active_job_card
  unresolved-update_cards_found [] card h e = ground arith
  unresolved-update_cards_found (c ∷ cs) card h e = ground (
    arith,
    unresolved-update_cards_found cs card,
    unresolved-update_cards card.queue_id change ends cs,
    ends c,
    ==-refl card.queue_id,
  )

module _ (change : Card → Card) (ends : Ends change) where
  unresolved-update_active :
      (queue : List Card) (card : Card)
      → active_job_card queue ≡ some card
      → is_empty card.queue_id ≡ false
      → unresolved (update_active change queue) < unresolved queue
  unfolding update_active
  unresolved-update_active queue card h e =
      rw (update_active, h) (unresolved-update_cards_found change ends queue card h e)

  actives-update_cards :
      (i : String) (queue : List Card) → actives (update_cards i change queue) ≤ actives queue
  unfolding update_cards
  actives-update_cards i [] = omega arith
  actives-update_cards i (c ∷ cs) = ground (arith, actives-update_cards i cs, ends c)

  actives-update_cards_found :
      (queue : List Card) (card : Card)
      → active_job_card queue ≡ some card
      → is_empty card.queue_id ≡ false
      → actives (update_cards card.queue_id change queue) < actives queue
  unfolding update_cards active_job_card
  actives-update_cards_found [] card h e = ground arith
  actives-update_cards_found (c ∷ cs) card h e = ground (
    arith,
    actives-update_cards_found cs card,
    actives-update_cards card.queue_id cs,
    ends c,
    ==-refl card.queue_id,
  )

no_active-of-zero : (queue : List Card) → actives queue ≤ 0 → active_job_card queue ≡ none
unfolding active_job_card
no_active-of-zero [] h = refl
no_active-of-zero (c ∷ cs) h = ground (arith, no_active-of-zero cs)

complete-Ends : Ends complete_card
complete-Ends c = refl

skip-Ends : (reason url : String) (n : Option ℕ) → Ends (skip_card reason url n)
skip-Ends reason url n c = refl

reject-Ends : (reason url : String) → Ends (reject_card reason url)
reject-Ends reason url c = refl

-- While a card with a number is active, each of the three ways to end it (complete, skip, reject)
-- leaves strictly fewer pending or active cards in the queue.
pub ending_shrinks :
    (queue : List Card) (card : Card) (reason url : String) (n : Option ℕ)
    → active_job_card queue ≡ some card
    → is_empty card.queue_id ≡ false
    → (unresolved (complete_active_job_card queue) < unresolved queue)
      × (unresolved (skip_active_job_card queue reason url n) < unresolved queue)
      × (unresolved (reject_active_job_card queue reason url) < unresolved queue)
unfolding complete_active_job_card skip_active_job_card reject_active_job_card
ending_shrinks queue card reason url n h e = (
  unresolved-update_active complete_card complete-Ends queue card h e,
  unresolved-update_active (skip_card reason url n) (skip-Ends reason url n) queue card h e,
  unresolved-update_active (reject_card reason url) (reject-Ends reason url) queue card h e,
)

cleared :
    (change : Card → Card)
    → Ends change
    → (queue : List Card) (card : Card) → actives queue ≤ 1
    → active_job_card queue ≡ some card
    → is_empty card.queue_id ≡ false
    → active_job_card (update_active change queue) ≡ none
unfolding update_active
cleared change ends queue card one h e =
    rw (update_active, h)
      (no_active-of-zero (update_cards card.queue_id change queue)
        (omega (arith, actives-update_cards_found change ends queue card h e)))

-- If at most one card is active and it has a number, completing, skipping or rejecting it leaves no
-- active card.
pub ending_clears :
    (queue : List Card) (card : Card) (reason url : String) (n : Option ℕ)
    → actives queue ≤ 1
    → active_job_card queue ≡ some card
    → is_empty card.queue_id ≡ false
    → (active_job_card (complete_active_job_card queue) ≡ none)
      × (active_job_card (skip_active_job_card queue reason url n) ≡ none)
      × (active_job_card (reject_active_job_card queue reason url) ≡ none)
unfolding complete_active_job_card skip_active_job_card reject_active_job_card
ending_clears queue card reason url n one h e = (
  cleared complete_card complete-Ends queue card one h e,
  cleared (skip_card reason url n) (skip-Ends reason url n) queue card one h e,
  cleared (reject_card reason url) (reject-Ends reason url) queue card one h e,
)

-- Activation makes at most one more card active, and neither loses nor adds an unresolved one.
pub activation_keeps :
    (u : Unicode) (queue : List Card) (i : String)
    → (actives (activate_job_card u queue i) ≤ suc (actives queue))
      × (unresolved (activate_job_card u queue i) ≡ unresolved queue)
unfolding activate_job_card
activation_keeps u queue i =
    ground
      (arith, actives-activate_first (strip u i) queue, unresolved-activate_first (strip u i) queue)
