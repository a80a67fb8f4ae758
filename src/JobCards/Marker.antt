-- ===== src/JobCards/Marker.antt =====
-- The marker chosen for a queued card, and the request that opens it.
use l2c.Common.{
  ℕ, String, ◌≡◌, refl, subst, Bool, true, not, ◌&&◌, Option, none, some, List, [], ◌∷◌, arith, any,
  All, nat_eq, ◌==◌, ==-refl, Bool-cases, some_inj, first-hit, first-miss, inl, inr, first,
}
use mathlib.Core.Option.{none-ne-some}
use l2c.Common.Text.{Unicode, is_empty, or_text}
use l2c.Worker.State.{Marker, Card, pending, active}
use l2c.JobCards.Queue.{
  is_pending, marker_by_id, job_card_match_text, pending_job_cards, active_job_card,
}
use l2c.JobCards.Lifecycle.{activate_first}
use l2c.JobCards.Select.{
  Candidate, candidates, same_rank, sorts_before, insert_candidate, sort_candidates, best_choice,
  match_by_title, job_card_marker_for_item, source_or,
}

abbrev pub shows : ℕ → List Marker → Bool
shows i markers = any (λ m. nat_eq m.id i) markers

-- Every candidate's marker is on the screen.
abbrev OnScreen : List Marker → Candidate → Type 0
OnScreen markers c = shows c.marker_id markers ≡ true

nat_eq_refl : (n : ℕ) → nat_eq n n ≡ true
nat_eq_refl n = ground arith

weaken :
    (m : Marker) (ms : List Marker) (cs : List Candidate)
    → All (OnScreen ms) cs
    → All (OnScreen (m ∷ ms)) cs
weaken m ms [] h = tt
weaken m ms (c ∷ cs) h = (ground arith, weaken m ms cs h.1)

candidates-OnScreen :
    (u : Unicode) (saved : String) (markers : List Marker)
    → All (OnScreen markers) (candidates u saved markers)
unfolding candidates
candidates-OnScreen u saved [] = tt
candidates-OnScreen u saved (m ∷ ms) =
    ground (
      arith,
      weaken m ms (candidates u saved ms) (candidates-OnScreen u saved ms),
      nat_eq_refl m.id,
    )

All-insert {κ} :
    (P : Candidate → Type κ) (c : Candidate) (cs : List Candidate)
    → P c
    → All P cs
    → All P (insert_candidate c cs)
unfolding insert_candidate
All-insert P c [] p h = (p, tt)
All-insert P c (d ∷ ds) p h = elim (Bool-cases (sorts_before c d)) [
  | inl e ↦ rw e (p, h)
  | inr e ↦ rw e (h.0, All-insert P c ds p h.1)
]

All-sort {κ} :
    (P : Candidate → Type κ) (cs : List Candidate) → All P cs → All P (sort_candidates cs)
unfolding sort_candidates
All-sort P [] h = tt
All-sort P (c ∷ cs) h = All-insert P c (sort_candidates cs) h.0 (All-sort P cs h.1)

best_choice-OnScreen :
    (markers : List Marker) (cs : List Candidate) (i : ℕ)
    → All (OnScreen markers) cs
    → (best_choice cs).0 ≡ some i
    → shows i markers ≡ true
unfolding best_choice
best_choice-OnScreen markers [] i h e = absurd (cc)
best_choice-OnScreen markers (c ∷ []) i h e = subst (λ k. shows k markers ≡ true) (some_inj e) h.0
best_choice-OnScreen markers (c ∷ d ∷ ds) i h e = elim (Bool-cases (same_rank c d)) [
  | inl s ↦ absurd (none-ne-some i (rw s at e))
  | inr s ↦ subst (λ k. shows k markers ≡ true) (some_inj (rw s at e)) h.0
]

match_by_title-on_screen :
    (u : Unicode) (item : Card) (markers : List Marker) (i : ℕ)
    → (match_by_title u item markers).0 ≡ some i
    → shows i markers ≡ true
unfolding match_by_title
match_by_title-on_screen u item markers i h =
    let saved = job_card_match_text u (or_text item.source_marker_text item.title) in
    elim (Bool-cases (is_empty saved)) [
      | inl e ↦ absurd (none-ne-some i (rw e at h))
      | inr e ↦
          best_choice-OnScreen markers (sort_candidates (candidates u saved markers)) i
            (All-sort (OnScreen markers) (candidates u saved markers)
              (candidates-OnScreen u saved markers))
            (rw e at h)
    ]

found_on_screen :
    (markers : List Marker) (target : ℕ) (m : Marker)
    → first (λ x. nat_eq x.id target) markers ≡ some m
    → shows m.id markers ≡ true
found_on_screen [] target m h = absurd (cc)
found_on_screen (x ∷ xs) target m h = elim (Bool-cases (nat_eq x.id target)) [
  | inl e ↦
      subst (λ y. shows y.id (x ∷ xs) ≡ true) (first-hit (λ y. nat_eq y.id target) x xs e h)
        (rw (nat_eq_refl x.id))
  | inr e ↦
      ground (arith, found_on_screen xs target m (first-miss (λ y. nat_eq y.id target) x xs e h))
]

by_id-on_screen :
    (markers : List Marker) (target : Option ℕ) (m : Marker)
    → marker_by_id markers target ≡ some m
    → shows m.id markers ≡ true
unfolding marker_by_id
by_id-on_screen markers none m h = absurd (cc)
by_id-on_screen markers (some target) m h = found_on_screen markers target m h

source_or-on_screen :
    (u : Unicode) (item : Card) (markers : List Marker) (o : Option Marker) (i : ℕ)
    → marker_by_id markers item.source_marker_id ≡ o
    → (source_or (match_by_title u item markers) o).0 ≡ some i
    → shows i markers ≡ true
source_or-on_screen u item markers none i e h = match_by_title-on_screen u item markers i h
source_or-on_screen u item markers (some m) i e h =
    subst (λ k. shows k markers ≡ true) (some_inj h)
      (by_id-on_screen markers item.source_marker_id m e)

-- Whatever marker is chosen for a queued card, by its source observation or by its title, is one of
-- the markers of the current screen.
pub job_card_marker_for_item-on_screen :
    (u : Unicode) (item : Card) (markers : List Marker) (oid : String) (i : ℕ)
    → (job_card_marker_for_item u item markers oid).0 ≡ some i
    → shows i markers ≡ true
unfolding job_card_marker_for_item
job_card_marker_for_item-on_screen u item markers oid i h =
    elim (Bool-cases (not (is_empty oid) && oid == item.source_observation_id)) [
      | inl e ↦
          source_or-on_screen u item markers (marker_by_id markers item.source_marker_id) i refl
            (rw e at h)
      | inr e ↦ match_by_title-on_screen u item markers i (rw e at h)
    ]

-- The first pending card is marked, or has no status at all.
pub first_pending-activates :
    (queue : List Card) (item : Card) (rest : List Card)
    → pending_job_cards queue ≡ item ∷ rest
    → item.status ≡ pending
    → active_job_card queue ≡ none
    → active_job_card (activate_first item.queue_id queue) ≡ some (record item { status = active })
unfolding pending_job_cards activate_first active_job_card
first_pending-activates [] item rest h p a = absurd (cc)
first_pending-activates (c ∷ cs) item rest h p a = elim (Bool-cases (is_pending c.status)) [
  | inl e ↦ ground (arith, ==-refl item.queue_id)
  | inr e ↦ ground (arith, first_pending-activates cs item rest)
]
