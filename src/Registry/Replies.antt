-- ===== src/Registry/Replies.antt =====
-- What the callers of a registry see.
use l2c.Common.{
  ◌-◌, ◌≤◌, String, ◌≡◌, refl, sym, Bool, true, false, not, ◌&&◌, leb, length, is_some, Option,
  none, some, arith, ◌==◌, eq_iff, ==-refl, if◌then◌else◌, subst, ◌⊎◌, inl, inr, Bool-cases,
}
use l2c.Registry.Items.{RunStatus, Item, lookup, put, remove}
use l2c.Registry.Runs.{
  RunRegistry, RunEvent, new_item, start, apply_to, apply_event, finish, complete, fail, cancel_at,
  request_cancel, with_event, with_finish, with_cancel, or_bare, is_cancel_requested, is_terminal,
  get,
}
use l2c.Registry.Keys.{lookup-put, started, lookup-started}
use l2c.Registry.Bounds.{
  Call, step, IsValid, start_call, event_call, complete_call, fail_call, cancel_call,
}

-- The calls that may lower the cancel flag of a run: the ones that start it anew or end it.
abbrev pub resets : String → Call → Bool
resets k (start_call now j query conversation) = j == k
resets k (event_call now e) = false
resets k (complete_call now j status result) = j == k
resets k (fail_call now j error) = j == k
resets k (cancel_call now j) = false

-- Whether as many entries of other runs as the limit leave no room for the entry of run `j`.
abbrev pub is_full_for : String → RunRegistry → Bool
is_full_for j r = leb r.limit (length (remove j r.items))

-- Whether a call makes a new entry for which an old one has to go: the start of a run, or an event
-- of a run without an entry.
abbrev pub makes_room : Call → RunRegistry → Bool
makes_room (start_call now j query conversation) r = is_full_for j r
makes_room (event_call now e) r = not (is_some (lookup e.run_id r.items)) && is_full_for e.run_id r
makes_room (complete_call now j status result) r = false
makes_room (fail_call now j error) r = false
makes_room (cancel_call now j) r = false

-- The flag of run `k` is up, or, where entries may go, the run has none.
abbrev pub Kept : Bool → String → RunRegistry → Type 0
Kept dropping k r =
    (is_cancel_requested k r ≡ true) ⊎ ((lookup k r.items ≡ none) × (dropping ≡ true))

Kept-put :
    (dropping : Bool) (k j : String) (item : Item) (r : RunRegistry)
    → Kept dropping k r
    → ((j == k) ≡ true → item.cancel_requested ≡ true)
    → Kept dropping k (record r { items = put j item r.items })
unfolding is_cancel_requested
Kept-put dropping k j item r h keeps = ground (arith, lookup-put j k item r.items, keeps)

forgets-or-keeps :
    (k j : String) (item : Item) (r : RunRegistry)
    → IsValid r
    → (j == k) ≡ false
    → ((lookup k (started r.limit j item r.items) ≡ none) × (r.limit ≤ length (remove j r.items)))
      ⊎ (lookup k (started r.limit j item r.items) ≡ lookup k r.items)
forgets-or-keeps k j item r v e =
    subst
      (λ l.
        ((lookup k (started l j item r.items) ≡ none) × (l ≤ length (remove j r.items)))
        ⊎ (lookup k (started l j item r.items) ≡ lookup k r.items))
      {y = r.limit} (omega arith) (lookup-started (r.limit - 1) j k item r.items v.unique e)

Kept-start :
    (now k j query conversation : String) (r : RunRegistry)
    → IsValid r
    → (j == k) ≡ false
    → is_cancel_requested k r ≡ true
    → Kept (is_full_for j r) k (start now j query conversation r)
unfolding is_cancel_requested start
Kept-start now k j query conversation r v e h =
    ground (arith, forgets-or-keeps k j (new_item now j query conversation) r v e)

unknown-differs :
    (k j : String) (r : RunRegistry)
    → lookup j r.items ≡ none
    → is_cancel_requested k r ≡ true
    → (j == k) ≡ false
unfolding is_cancel_requested
unknown-differs k j r h f = ground (arith, eq_iff j k)

with_room :
    (full : Bool) (k : String) (r : RunRegistry) → Kept full k r → Kept (not false && full) k r
with_room full k r h = ground arith

Kept-event :
    (now k : String) (e : RunEvent) (r : RunRegistry) (o : Option Item)
    → IsValid r
    → lookup e.run_id r.items ≡ o
    → is_cancel_requested k r ≡ true
    → Kept (not (is_some o) && is_full_for e.run_id r) k (apply_to now e r o)
Kept-event now k e r (some item) v h f =
    Kept-put _ k e.run_id (with_event e item) r (inl f)
      (λ same. unfold is_cancel_requested in ground (arith, eq_iff e.run_id k))
Kept-event now k e r none v h f =
    let differs = unknown-differs k e.run_id r h f in
    with_room (is_full_for e.run_id r) k _ (
      Kept-put _ k e.run_id (with_event e (new_item now e.run_id "" ""))
        (start now e.run_id "" "" r) (Kept-start now k e.run_id "" "" r v differs f) (λ same. cc))

Kept-cancel :
    (now k j : String) (r : RunRegistry) (o : Option Item)
    → is_cancel_requested k r ≡ true
    → Kept false k (cancel_at now j r o).1
Kept-cancel now k j r none f = inl f
Kept-cancel now k j r (some item) f = elim (Bool-cases (is_terminal item.status)) [
  | inl e ↦ rw e (inl f)
  | inr e ↦ rw e (Kept-put _ k j (with_cancel now item) r (inl f) (λ same. refl))
]

Kept-finish :
    (now k j : String) (status : RunStatus) (result error : String) (r : RunRegistry)
    → (j == k) ≡ false
    → is_cancel_requested k r ≡ true
    → Kept false k (finish now j status result error r)
unfolding finish
Kept-finish now k j status result error r e f =
    Kept-put _ k j (with_finish now status result error (or_bare now j (lookup j r.items))) r
      (inl f) (λ same. cc)

-- A request to cancel a run is not lost: whatever call follows on a valid registry, unless it
-- starts that run anew or ends it, the flag is still up; or the run's entry was dropped, the call
-- made a new entry, and as many entries of other runs as the limit left no room for it.
pub step_keeps_cancel :
    (k : String) (c : Call) (r : RunRegistry)
    → IsValid r
    → resets k c ≡ false
    → is_cancel_requested k r ≡ true
    → Kept (makes_room c r) k (step c r)
unfolding step complete fail
step_keeps_cancel k (start_call now j query conversation) r v e f =
    Kept-start now k j query conversation r v e f
step_keeps_cancel k (event_call now e) r v x f =
    unfold apply_event in Kept-event now k e r (lookup e.run_id r.items) v refl f
step_keeps_cancel k (complete_call now j status result) r v e f =
    Kept-finish now k j status result "" r e f
step_keeps_cancel k (fail_call now j error) r v e f =
    Kept-finish now k j RunStatus.failed "" error r e f
step_keeps_cancel k (cancel_call now j) r v e f =
    unfold request_cancel in Kept-cancel now k j r (lookup j r.items) f

-- A run that is known and has not ended.
abbrev pub can_cancel : Option Item → Bool
can_cancel none = false
can_cancel (some item) = not (is_terminal item.status)

abbrev pub cancelled : String → Option Item → Option Item
cancelled now none = none
cancelled now (some item) = some (with_cancel now item)

cancel_reply :
    (now k : String) (r : RunRegistry) (o : Option Item)
    → lookup k r.items ≡ o
    → (cancel_at now k r o).0 ≡ lookup k (cancel_at now k r o).1.items
cancel_reply now k r none h = sym h
cancel_reply now k r (some item) h =
    ground (arith, lookup-put k k (with_cancel now item) r.items, ==-refl k)

cancel_entries :
    (now k j : String) (r : RunRegistry) (o : Option Item)
    → lookup k r.items ≡ o
    → lookup j (cancel_at now k r o).1.items
      ≡ (if k == j && can_cancel o then cancelled now o else lookup j r.items)
cancel_entries now k j r none h = ground arith
cancel_entries now k j r (some item) h =
    ground (arith, lookup-put k j (with_cancel now item) r.items)

-- Cancelling a run answers with the run's entry as it stands afterwards. An entry changes exactly
-- if it is the run's own and the run is known and has not ended; it then has its flag up, the
-- message of a cancellation and the time of the call.
pub request_cancel_lem :
    (now k j : String) (r : RunRegistry)
    → ((request_cancel now k r).0 ≡ get k (request_cancel now k r).1)
      × (get j (request_cancel now k r).1 ≡ (
          if k == j && can_cancel (lookup k r.items)
          then cancelled now (lookup k r.items)
          else get j r))
unfolding request_cancel get
request_cancel_lem now k j r =
    (cancel_reply now k r (lookup k r.items) refl, cancel_entries now k j r (lookup k r.items) refl)
