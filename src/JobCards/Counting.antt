-- ===== src/JobCards/Counting.antt =====
-- The count of resolved cards, and the ends of the active card.
use l2c.Common.{
  ℕ, ◌+◌, ◌≤◌, String, ◌≡◌, refl, Bool, true, false, some, List, [], ◌∷◌, arith, All, ◌==◌, eq_iff,
  ==-refl, count_if, Bool-cases, inl, inr, subst, first-hit,
}
use l2c.Common.Text.{is_empty}
use l2c.Worker.State.{Card}
use l2c.JobCards.Queue.{active_job_card, is_active, is_resolved, resolved_job_card_count}
use l2c.JobCards.Lifecycle.{
  update_cards, update_active, complete_card, skip_card, reject_card, complete_active_job_card,
  skip_active_job_card, reject_active_job_card,
}
use l2c.JobCards.Numbers.{Distinct}

update-others :
    (i : String) (change : Card → Card) (cs : List Card)
    → All (λ d. (d.queue_id == i) ≡ false) cs
    → update_cards i change cs ≡ cs
unfolding update_cards
update-others i change [] h = refl
update-others i change (c ∷ cs) h = ground (arith, update-others i change cs)

All-active {κ} :
    (P : Card → Type κ) (cs : List Card) (card : Card)
    → All P cs
    → active_job_card cs ≡ some card
    → P card
unfolding active_job_card
All-active P [] card h e = absurd (cc)
All-active P (c ∷ cs) card h e = elim (Bool-cases (is_active c.status)) [
  | inl act ↦ subst P (first-hit (λ c. is_active c.status) c cs act e) h.0
  | inr idle ↦ All-active P cs card h.1 (rw idle at e)
]

-- A change that makes a card count, or that leaves an active card uncounted.
abbrev Counts : (Card → Card) → Bool → Type 0
Counts change b = (c : Card) → is_active c.status ≡ true → is_resolved (change c) ≡ b

abbrev gain : Bool → ℕ
gain true = 1
gain false = 0

module _ (change : Card → Card) (b : Bool) (counts : Counts change b) where
  resolved-update_head :
      (c : Card) (cs : List Card)
      → Distinct (c ∷ cs)
      → is_active c.status ≡ true
      → is_empty c.queue_id ≡ false
      → count_if is_resolved (update_cards c.queue_id change (c ∷ cs))
        ≡ count_if is_resolved (c ∷ cs) + gain b
  unfolding update_cards
  resolved-update_head c cs d act e =
      ground (arith, update-others c.queue_id change cs, counts c, ==-refl c.queue_id)

  resolved-update_tail :
      (c : Card) (cs : List Card) (card : Card)
      → (card.queue_id == c.queue_id) ≡ false
      → count_if is_resolved (update_cards card.queue_id change cs)
        ≡ count_if is_resolved cs + gain b
      → count_if is_resolved (update_cards card.queue_id change (c ∷ cs))
        ≡ count_if is_resolved (c ∷ cs) + gain b
  unfolding update_cards
  resolved-update_tail c cs card differ ih =
      ground (arith, eq_iff c.queue_id card.queue_id, eq_iff card.queue_id c.queue_id)

  resolved-update :
      (cs : List Card) (card : Card)
      → Distinct cs
      → active_job_card cs ≡ some card
      → is_empty card.queue_id ≡ false
      → count_if is_resolved (update_cards card.queue_id change cs)
        ≡ count_if is_resolved cs + gain b
  unfolding active_job_card
  resolved-update [] card d h e = absurd (cc)
  resolved-update (c ∷ cs) card d h e = elim (Bool-cases (is_active c.status)) [
    | inl act ↦
        subst
          (λ x.
            is_empty x.queue_id ≡ false
            → count_if is_resolved (update_cards x.queue_id change (c ∷ cs))
              ≡ count_if is_resolved (c ∷ cs) + gain b)
          (first-hit (λ c. is_active c.status) c cs act h) (λ k. resolved-update_head c cs d act k)
          e
    | inr idle ↦
        resolved-update_tail c cs card
          (All-active (λ x. (x.queue_id == c.queue_id) ≡ false) cs card d.0 (rw idle at h))
          (resolved-update cs card d.1 (rw idle at h) e)
  ]

  resolved-update_active :
      (cs : List Card) (card : Card)
      → Distinct cs
      → active_job_card cs ≡ some card
      → is_empty card.queue_id ≡ false
      → resolved_job_card_count (update_active change cs) ≡ resolved_job_card_count cs + gain b
  unfolding resolved_job_card_count update_active
  resolved-update_active cs card d h e = rw (update_active, h) (resolved-update cs card d h e)

complete-Counts : Counts complete_card true
complete-Counts c h = refl

skip-Counts : (reason url : String) (n : ℕ) → 1 ≤ n → Counts (skip_card reason url (some n)) true
skip-Counts reason url n p c h = ground arith

reject-Counts : (reason url : String) → Counts (reject_card reason url) false
reject-Counts reason url c h = refl

-- If no number occurs twice, completing the active card, or skipping it with the positive id of a
-- stored job, adds exactly one to the count of resolved cards, and rejecting it adds none. The
-- active card has a number.
pub ending_counts :
    (queue : List Card) (card : Card) (reason url : String) (n : ℕ)
    → Distinct queue
    → active_job_card queue ≡ some card
    → is_empty card.queue_id ≡ false
    → 1 ≤ n
    → (resolved_job_card_count (complete_active_job_card queue) ≡ resolved_job_card_count queue + 1)
      × (resolved_job_card_count (skip_active_job_card queue reason url (some n))
          ≡ resolved_job_card_count queue + 1)
      × (resolved_job_card_count (reject_active_job_card queue reason url)
          ≡ resolved_job_card_count queue + 0)
unfolding complete_active_job_card skip_active_job_card reject_active_job_card
ending_counts queue card reason url n d h e p = (
  resolved-update_active complete_card true complete-Counts queue card d h e,
  resolved-update_active (skip_card reason url (some n)) true (skip-Counts reason url n p) queue
      card d h e,
  resolved-update_active (reject_card reason url) false (reject-Counts reason url) queue card d h e,
)
