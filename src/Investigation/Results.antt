-- ===== src/Investigation/Results.antt =====
-- What a collection's result says, against the numbers it is made from
-- (investigation_collection_nodes.py `_collection_outcomes`, `build_collection_result`).
use l2c.Common.{
  ℕ, ◌≤◌, ◌<◌, String, ◌≡◌, refl, ◌↔◌, ◌⊎◌, inl, inr, Bool, true, not, ◌&&◌, ◌||◌, List, [], ◌∷◌,
  ◌++◌, ◌==◌, arith, ltb, leb, nat_eq, length, any, keep, All, Bool-cases,
}
use l2c.Common.Text.{Unicode}
use l2c.Investigation.State.{Batch, PersistenceReport, Status}
use l2c.Investigation.Outcome.{
  collection_outcomes, insert_id, sorted_ids, observed_ids, build_collection_result,
}

-- In strictly ascending order.
abbrev pub IsAscending : List ℕ → Type 0
IsAscending [] = Unit
IsAscending (n ∷ ns) = All (λ m. n < m) ns × IsAscending ns

abbrev pub elem : ℕ → List ℕ → Bool
elem n ns = any (nat_eq n) ns

All-lt : (k n : ℕ) (ns : List ℕ) → k < n → All (λ m. n < m) ns → All (λ m. k < m) ns
All-lt k n [] h a = _
All-lt k n (m ∷ ms) h a = (omega (arith, h, a.0), All-lt k n ms h a.1)

insert_id-above :
    (k n : ℕ) (ns : List ℕ) → k < n → All (λ m. k < m) ns → All (λ m. k < m) (insert_id n ns)
unfolding insert_id
insert_id-above k n [] h a = (h, _)
insert_id-above k n (m ∷ ms) h a = elim (Bool-cases (ltb n m)) [
  | inl e ↦ rw e (h, a)
  | inr e ↦ elim (Bool-cases (nat_eq n m)) [
    | inl d ↦ rw (e, d) a
    | inr d ↦ rw (e, d) (a.0, insert_id-above k n ms h a.1)
  ]
]

insert_id-IsAscending : (n : ℕ) (ns : List ℕ) → IsAscending ns → IsAscending (insert_id n ns)
unfolding insert_id
insert_id-IsAscending n [] a = (_, _)
insert_id-IsAscending n (m ∷ ms) a = elim (Bool-cases (ltb n m)) [
  | inl e ↦ let lt : n < m = ground arith in rw e ((lt, All-lt n m ms lt a.0), a)
  | inr e ↦ elim (Bool-cases (nat_eq n m)) [
    | inl d ↦ rw (e, d) a
    | inr d ↦ rw (e, d) (insert_id-above m n ms (ground arith) a.0, insert_id-IsAscending n ms a.1)
  ]
]

elem-insert_id : (k n : ℕ) (ns : List ℕ) → elem k (insert_id n ns) ≡ (nat_eq k n || elem k ns)
unfolding insert_id
elem-insert_id k n [] = refl
elem-insert_id k n (m ∷ ms) = ground (arith, elem-insert_id k n ms)

sorted_ids-IsAscending : (ns : List ℕ) → IsAscending (sorted_ids ns)
unfolding sorted_ids
sorted_ids-IsAscending [] = _
sorted_ids-IsAscending (n ∷ ns) =
    insert_id-IsAscending n (sorted_ids ns) (sorted_ids-IsAscending ns)

elem-sorted_ids : (k : ℕ) (ns : List ℕ) → elem k (sorted_ids ns) ≡ elem k ns
unfolding sorted_ids
elem-sorted_ids k [] = refl
elem-sorted_ids k (n ∷ ns) =
    ground (arith, elem-insert_id k n (sorted_ids ns), elem-sorted_ids k ns)

elem-append : (k : ℕ) (ns ms : List ℕ) → elem k (ns ++ ms) ≡ (elem k ns || elem k ms)
elem-append k [] ms = refl
elem-append k (n ∷ ns) ms = ground (arith, elem-append k ns ms)

elem-keep : (k : ℕ) (ns : List ℕ) → elem k (keep (λ n. leb 1 n) ns) ≡ (leb 1 k && elem k ns)
elem-keep k [] = ground arith
elem-keep k (n ∷ ns) = ground (arith, elem-keep k ns)

-- The documents of a built result stand in strictly ascending order, and are the persisted items
-- and the observed jobs whose id is positive, and no others; the resolved count is their number.
pub build_collection_result-documents :
    (u : Unicode) (batch : Batch) (report : PersistenceReport) (k : ℕ)
    → let result = build_collection_result u batch report in
      IsAscending result.document_ids
      × (elem k result.document_ids
          ≡ (elem k report.persisted_ids || (leb 1 k && elem k batch.submission.observed_job_ids)))
      × (result.resolved_count ≡ length result.document_ids)
unfolding build_collection_result
build_collection_result-documents u batch report k = (
  sorted_ids-IsAscending (report.persisted_ids ++ observed_ids batch),
  ground (
    arith,
    elem-sorted_ids k (report.persisted_ids ++ observed_ids batch),
    elem-append k report.persisted_ids (observed_ids batch),
    elem-keep k batch.submission.observed_job_ids,
  ),
  refl,
)

-- A collection counts as completed exactly when its worker finished for a reason that is not a
-- failure, and either it resolved at least one job and at least the target, or it resolved none,
-- the scope is exhausted, and there was no target or no job was rejected.
pub collection_outcomes-completed :
    (resolved target rejected_count : ℕ) (worker_finished exhausted : Bool) (reason : String)
    → let outcomes =
        collection_outcomes resolved target rejected_count worker_finished exhausted reason in
      (outcomes.status ≡ Status.completed) ↔ (
        ((worker_finished
            && not (reason == "reasoning_limit")
            && not (reason == "screen_unavailable"))
          ≡ true)
        × (((1 ≤ resolved) × (target ≤ resolved))
            ⊎ ((exhausted ≡ true) × (resolved ≡ 0) × ((target ≡ 0) ⊎ (rejected_count ≡ 0)))))
unfolding collection_outcomes
collection_outcomes-completed resolved target rejected_count worker_finished exhausted reason =
    ground arith
