-- ===== src/JobCards/Numbers.antt =====
-- The numbers of queued cards, `card-{n}` with n as `str` prints it.
use Prim.Native.Char.{code}
use l2c.Common.{
  ℕ, zero, suc, ◌+◌, ◌-◌, ◌*◌, ◌/◌, ◌%◌, ◌≤◌, ◌<◌, String, ◌≡◌, refl, ◌∙◌, sym, ap, true, false,
  some, List, [], ◌∷◌, ◌++◌, arith, length, count_if, All, ◌==◌, ==→≡, ==-refl, Bool-cases, ◌⊎◌,
  inl, inr, subst, count_if-append,
}
use l2c.Common.Text.{Unicode, append}
use l2c.Worker.State.{Card, WorkerState}
use l2c.JobCards.Queue.{
  RawCard, digit, show_fuel, show_nat, card_id, kept_cards, normalize_job_card_queue,
  job_card_is_known, normalized_job_card, add_cards, add_card,
}
use l2c.JobCards.Kept.{Grows, same, more, normalized-IsFresh, normalize-Grows}

-- The value of a text of digits, read on from `acc`.
value : ℕ → String → ℕ
value acc String.[] = acc
value acc (String.◌∷◌ c s) = value (acc * 10 + (code c - 48)) s

value-append : (acc : ℕ) (s t : String) → value acc (append s t) ≡ value (value acc s) t
unfolding value append
value-append acc String.[] t = refl
value-append acc (String.◌∷◌ c s) t = value-append (acc * 10 + (code c - 48)) s t

value-digit : (acc d : ℕ) → d < 10 → value acc (digit d) ≡ acc * 10 + d
unfolding value digit
value-digit acc zero h = refl
value-digit acc (suc zero) h = refl
value-digit acc (suc (suc zero)) h = refl
value-digit acc (suc (suc (suc zero))) h = refl
value-digit acc (suc (suc (suc (suc zero)))) h = refl
value-digit acc (suc (suc (suc (suc (suc zero))))) h = refl
value-digit acc (suc (suc (suc (suc (suc (suc zero)))))) h = refl
value-digit acc (suc (suc (suc (suc (suc (suc (suc zero))))))) h = refl
value-digit acc (suc (suc (suc (suc (suc (suc (suc (suc zero)))))))) h = refl
value-digit acc (suc (suc (suc (suc (suc (suc (suc (suc (suc zero))))))))) h = refl
value-digit acc (suc (suc (suc (suc (suc (suc (suc (suc (suc (suc d)))))))))) h =
    absurd (omega arith)

value-show_fuel : (f n : ℕ) → n < f → value 0 (show_fuel f n) ≡ n
unfolding show_fuel
value-show_fuel zero n h = absurd (omega arith)
value-show_fuel (suc f) n h = ground (
  arith,
  value-digit 0 n,
  value-append 0 (show_fuel f (n / 10)) (digit (n % 10)),
  value-digit (value 0 (show_fuel f (n / 10))) (n % 10),
  value-show_fuel f (n / 10),
)

-- The digits that `str` prints are read back as the number.
value-show_nat : (n : ℕ) → value 0 (show_nat n) ≡ n
unfolding show_nat
value-show_nat n = value-show_fuel (suc n) n (omega arith)

tail_text : String → String
tail_text String.[] = String.[]
tail_text (String.◌∷◌ c s) = s

-- Two numbers of cards that print the same are the same.
pub card_id-injective : (n m : ℕ) → card_id n ≡ card_id m → n ≡ m
unfolding card_id append tail_text
card_id-injective n m h =
    sym (value-show_nat n)
    ∙ ap (λ t. value 0 (tail_text (tail_text (tail_text (tail_text (tail_text t)))))) h
    ∙ value-show_nat m

-- The cards are numbered from n + 1 on, in order.
abbrev pub NumberedFrom : ℕ → List Card → Type 0
NumberedFrom n [] = Unit
NumberedFrom n (c ∷ cs) = (c.queue_id ≡ card_id (n + 1)) × NumberedFrom (n + 1) cs

abbrev pub Distinct : List Card → Type 0
Distinct [] = Unit
Distinct (c ∷ cs) = All (λ d. (d.queue_id == c.queue_id) ≡ false) cs × Distinct cs

other_numbers :
    (k n : ℕ) (i : String) (cs : List Card)
    → k < n + 1
    → i ≡ card_id k
    → NumberedFrom n cs
    → All (λ d. (d.queue_id == i) ≡ false) cs
other_numbers k n i [] h e ns = tt
other_numbers k n i (c ∷ cs) h e ns =
    (differ (Bool-cases (c.queue_id == i)), other_numbers k (n + 1) i cs (omega arith) e ns.1)
  where
    differ : ((c.queue_id == i) ≡ true) ⊎ ((c.queue_id == i) ≡ false) → (c.queue_id == i) ≡ false
    differ (inl same_id) =
        absurd
          (omega (arith, card_id-injective (n + 1) k (sym ns.0 ∙ ==→≡ c.queue_id i same_id ∙ e)))
    differ (inr f) = f

Numbered-Distinct : (n : ℕ) (cs : List Card) → NumberedFrom n cs → Distinct cs
Numbered-Distinct n [] h = tt
Numbered-Distinct n (c ∷ cs) h = (
  other_numbers (n + 1) (n + 1) c.queue_id cs (omega arith) h.0 h.1,
  Numbered-Distinct (n + 1) cs h.1,
)

Numbered-snoc :
    (n : ℕ) (cs : List Card) (c : Card)
    → NumberedFrom n cs
    → c.queue_id ≡ card_id (n + length cs + 1)
    → NumberedFrom n (cs ++ c ∷ [])
Numbered-snoc n [] c h e = (subst (λ k. c.queue_id ≡ card_id (k + 1)) (omega arith) e, tt)
Numbered-snoc n (d ∷ ds) c h e = (
  h.0,
  Numbered-snoc (n + 1) ds c h.1 (subst (λ k. c.queue_id ≡ card_id (k + 1)) (omega arith) e),
)

Numbered-Grows :
    (u : Unicode) (s : WorkerState) {before queue : List Card}
    → Grows u s before queue
    → NumberedFrom 0 before
    → NumberedFrom 0 queue
Numbered-Grows u s same h = h
Numbered-Grows u s (more {queue = q} card g f e) h = rw e (
    Numbered-snoc 0 q card (Numbered-Grows u s g h)
      (subst (λ k. card.queue_id ≡ card_id (k + 1)) (omega arith) f.number))

-- If the cards that a new selection keeps are numbered 1, 2, … in order, no two cards of the new
-- queue share a number.
pub normalize-Distinct :
    (u : Unicode) (cards : List RawCard) (s : WorkerState)
    → NumberedFrom 0 (kept_cards s.collection.job_card_queue)
    → Distinct (normalize_job_card_queue u cards s)
normalize-Distinct u cards s h =
    Numbered-Distinct 0 (normalize_job_card_queue u cards s)
      (Numbered-Grows u s (normalize-Grows u cards s) h)

abbrev pub bearing : String → List Card → ℕ
bearing i queue = count_if (λ c. c.queue_id == i) queue

-- If a kept card already bears the number that follows the count of kept cards, a selected card
-- that is accepted gets the same number, so that two cards of the new queue share it.
pub normalize_collides :
    (u : Unicode) (raw : RawCard) (s : WorkerState) (card : Card)
    → let kept = kept_cards s.collection.job_card_queue in
      let number = card_id (length kept + 1) in
      normalized_job_card u raw s.observation.current_markers kept s.observation.observation_id
          s.observation.current_screenshot
        ≡ some card
      → job_card_is_known u card kept ≡ false
      → 1 ≤ bearing number kept
      → 2 ≤ bearing number (normalize_job_card_queue u (raw ∷ []) s)
unfolding normalize_job_card_queue add_cards add_card
normalize_collides u raw s card h new taken =
    let kept = kept_cards s.collection.job_card_queue in
    let number = card_id (length kept + 1) in
    let fresh = normalized-IsFresh u s raw kept card h new in
    rw h (
      rw new (
        rw (count_if-append (λ c. c.queue_id == number) kept (card ∷ []))
          (rw fresh.number (rw (==-refl number) (omega arith)))))
