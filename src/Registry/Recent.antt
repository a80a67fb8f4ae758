-- ===== src/Registry/Recent.antt =====
-- The listings: recent runs and the history of a conversation.
use l2c.Common.{
  ℕ, zero, suc, ◌-◌, ◌≤◌, String, ◌≡◌, refl, ◌∙◌, ap, Bool, true, ◌&&◌, List, [], ◌∷◌, ◌++◌,
  reverse, arith, ◌==◌, length, length-append, length-drop, max, drop, keep, All, subst, Bool-cases,
  inl, inr,
}
use mathlib.Core.List.{reverse-append, map-append}
use l2c.Common.Text.{is_empty}
use l2c.Registry.Items.{Item, Items, remove, trim}
use l2c.Registry.Runs.{
  RunRegistry, new_item, start, last_entries, values, conversation_history, is_answered,
  list_recent,
}
use l2c.Registry.Keys.{started, started_lem}
use l2c.Registry.Bounds.{IsValid}

module _ {ℓ} {A : Type ℓ} where
  drop-snoc :
      (n : ℕ) (xs : List A) (x : A) → n ≤ length xs → drop n (xs ++ x ∷ []) ≡ drop n xs ++ x ∷ []
  drop-snoc zero xs x h = refl
  drop-snoc (suc n) [] x h = absurd (omega arith)
  drop-snoc (suc n) (y ∷ ys) x h = drop-snoc n ys x (omega arith)

  last_entries-snoc :
      (limit : ℕ) (xs : List A) (x : A)
      → last_entries limit (xs ++ x ∷ []) ≡ drop (length (xs ++ x ∷ []) - max 1 limit) xs ++ x ∷ []
  last_entries-snoc limit xs x =
      drop-snoc (length (xs ++ x ∷ []) - max 1 limit) xs x
        (omega (arith, length-append xs (x ∷ [])))

  length-last_entries : (limit : ℕ) (xs : List A) → length (last_entries limit xs) ≤ max 1 limit
  length-last_entries limit xs = omega (arith, length-drop (length xs - max 1 limit) xs)

  All-drop {κ} : (P : A → Type κ) (n : ℕ) (xs : List A) → All P xs → All P (drop n xs)
  All-drop P zero xs h = h
  All-drop P (suc n) [] h = tt
  All-drop P (suc n) (x ∷ xs) h = All-drop P n xs h.1

  All-keep : (p : A → Bool) (xs : List A) → All (λ x. p x ≡ true) (keep p xs)
  All-keep p [] = tt
  All-keep p (x ∷ xs) = elim (Bool-cases (p x)) [
    | inl e ↦ rw e (e, All-keep p xs)
    | inr e ↦ rw e (All-keep p xs)
  ]

abbrev pub newest_first : ℕ → List Item → List Item
newest_first n before = reverse (drop n before)

started_values :
    (k : String) (item : Item) (r : RunRegistry)
    → IsValid r
    → started r.limit k item r.items ≡ trim (r.limit - 1) (remove k r.items) ++ (k, item) ∷ []
started_values k item r v =
    subst (λ l. started l k item r.items ≡ trim (r.limit - 1) (remove k r.items) ++ (k, item) ∷ [])
      {y = r.limit} (omega arith) (started_lem (r.limit - 1) k item r.items)

-- A run that was just started on a valid registry heads the list of recent runs, whatever the
-- length asked for, and the entries behind it are the newest ones of the other runs that there was
-- room for.
pub list_recent-start :
    (now k query conversation : String) (limit : ℕ) (r : RunRegistry)
    → IsValid r
    → (n : ℕ) × (list_recent limit (start now k query conversation r)
        ≡ new_item now k query conversation
          ∷ newest_first n (values (trim (r.limit - 1) (remove k r.items))))
unfolding list_recent start
list_recent-start now k query conversation limit r v =
    let item = new_item now k query conversation in
    let others = values (trim (r.limit - 1) (remove k r.items)) in
    let m = length (others ++ item ∷ []) - max 1 limit in
    (
      m,
      ap (λ (xs : Items). reverse (last_entries limit (values xs))) (started_values k item r v)
          ∙ ap (λ (xs : List Item). reverse (last_entries limit xs))
              (map-append (λ (entry : String × Item). entry.1)
                (trim (r.limit - 1) (remove k r.items)) ((k, item) ∷ []))
          ∙ ap (λ (xs : List Item). reverse xs) (last_entries-snoc limit others item)
          ∙ reverse-append (drop m others) (item ∷ []),
    )

abbrev pub InHistory : String → Item → Type 0
InHistory conversation item =
    (item.conversation_id == conversation && is_answered item.status) ≡ true

-- The history of a conversation holds at most as many entries as asked for (one, if none were), and
-- each belongs to the conversation and has been answered or waits for the user.
pub conversation_history_lem :
    (conversation : String) (limit : ℕ) (r : RunRegistry)
    → (length (conversation_history conversation limit r) ≤ max 1 limit)
      × All (InHistory conversation) (conversation_history conversation limit r)
unfolding conversation_history
conversation_history_lem conversation limit r = elim (Bool-cases (is_empty conversation)) [
  | inl e ↦ rw e (omega arith, tt)
  | inr e ↦
      let p = λ (item : Item). item.conversation_id == conversation && is_answered item.status in
      let kept = keep p (values r.items) in
      rw e (
        length-last_entries limit kept,
        All-drop (InHistory conversation) (length kept - max 1 limit) kept
            (All-keep p (values r.items)),
      )
]
