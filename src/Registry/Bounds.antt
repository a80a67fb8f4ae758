-- ===== src/Registry/Bounds.antt =====
-- What holds of a registry after any sequence of calls.
use l2c.Common.{
  ℕ, ◌+◌, ◌-◌, ◌≤◌, ◌<◌, String, ◌≡◌, refl, Option, none, some, List, [], ◌∷◌, arith, length, max,
  subst,
}
use l2c.Registry.Items.{RunStatus, Item, Items, lookup, put, move_to_end}
use l2c.Registry.Runs.{
  RunRegistry, RunEvent, new, new_item, start, apply_to, apply_event, finish, complete, fail,
  cancel_at, request_cancel, with_event, with_finish, with_cancel, or_bare,
}
use l2c.Registry.Keys.{
  Unique, Unique-put, Unique-started, length-put, length-trim, started, lookup-started_self,
}

-- The calls that change a registry.
pub data Call : Type 0 where
  start_call : String → String → String → String → Call
  event_call : String → RunEvent → Call
  complete_call : String → String → RunStatus → String → Call
  fail_call : String → String → String → Call
  cancel_call : String → String → Call

unfoldable pub step : Call → RunRegistry → RunRegistry
unfolding start apply_event complete fail request_cancel
step (start_call now k query conversation) r = start now k query conversation r
step (event_call now e) r = apply_event now e r
step (complete_call now k status result) r = complete now k status result r
step (fail_call now k error) r = fail now k error r
step (cancel_call now k) r = (request_cancel now k r).1

unfoldable pub calls : List Call → RunRegistry → RunRegistry
unfolding step
calls [] r = r
calls (c ∷ cs) r = calls cs (step c r)

-- No run has two entries, and there is room for at least ten.
pub record IsValid (r : RunRegistry) : Type 0 where
  pub roomy : 10 ≤ r.limit
  pub unique : Unique r.items

started-Unique :
    (k : String) (item : Item) (r : RunRegistry)
    → IsValid r
    → Unique (started r.limit k item r.items)
started-Unique k item r v =
    subst (λ l. Unique (started l k item r.items)) (omega arith)
      (Unique-started (r.limit - 1) k item r.items v.unique)

finish-IsValid :
    (now k : String) (status : RunStatus) (result error : String) (r : RunRegistry)
    → IsValid r
    → IsValid (finish now k status result error r)
unfolding finish
finish-IsValid now k status result error r v = record {
  roomy = v.roomy;
  unique =
      Unique-put k (with_finish now status result error (or_bare now k (lookup k r.items))) r.items
        v.unique;
}

apply_to-IsValid :
    (now : String) (e : RunEvent) (r : RunRegistry) (o : Option Item)
    → IsValid r
    → IsValid (apply_to now e r o)
unfolding start
apply_to-IsValid now e r (some item) v = record {
  roomy = v.roomy;
  unique = Unique-put e.run_id (with_event e item) r.items v.unique;
}
apply_to-IsValid now e r none v = record {
  roomy = v.roomy;
  unique =
      Unique-put e.run_id (with_event e (new_item now e.run_id "" ""))
        (started r.limit e.run_id (new_item now e.run_id "" "") r.items)
        (started-Unique e.run_id (new_item now e.run_id "" "") r v);
}

cancel_at-IsValid :
    (now k : String) (r : RunRegistry) (o : Option Item)
    → IsValid r
    → IsValid (cancel_at now k r o).1
cancel_at-IsValid now k r none v = v
cancel_at-IsValid now k r (some item) v =
    ground (arith, Unique-put k (with_cancel now item) r.items v.unique)

step-IsValid : (c : Call) (r : RunRegistry) → IsValid r → IsValid (step c r)
unfolding step
step-IsValid (start_call now k query conversation) r v =
    unfold start in
    record { roomy = v.roomy; unique = started-Unique k (new_item now k query conversation) r v }
step-IsValid (event_call now e) r v = apply_to-IsValid now e r (lookup e.run_id r.items) v
step-IsValid (complete_call now k status result) r v = finish-IsValid now k status result "" r v
step-IsValid (fail_call now k error) r v = finish-IsValid now k RunStatus.failed "" error r v
step-IsValid (cancel_call now k) r v = cancel_at-IsValid now k r (lookup k r.items) v

calls-IsValid : (cs : List Call) (r : RunRegistry) → IsValid r → IsValid (calls cs r)
unfolding calls
calls-IsValid [] r v = v
calls-IsValid (c ∷ cs) r v = calls-IsValid cs (step c r) (step-IsValid c r v)

-- After any calls on a new registry of any size, no run has two entries, and the limit is at least
-- ten.
reachable-IsValid : (limit : ℕ) (cs : List Call) → IsValid (calls cs (new limit))
reachable-IsValid limit cs =
    calls-IsValid cs (new limit) (record { roomy = omega arith; unique = tt })

abbrev pub size : RunRegistry → ℕ
size r = length r.items

abbrev pub size_bound : Call → RunRegistry → ℕ
size_bound (start_call now k query conversation) r = r.limit
size_bound (event_call now e) r = max r.limit (size r)
size_bound (complete_call now k status result) r = size r + 1
size_bound (fail_call now k error) r = size r + 1
size_bound (cancel_call now k) r = size r

put-size : (k : String) (item : Item) (items : Items) → length (put k item items) ≤ length items + 1
put-size k item items = ground (arith, length-put k item items)

put-size_known :
    (k : String) (item old : Item) (items : Items)
    → lookup k items ≡ some old
    → length (put k item items) ≡ length items
put-size_known k item old items h = ground (arith, length-put k item items)

started-has :
    (k : String) (item : Item) (r : RunRegistry)
    → IsValid r
    → lookup k (started r.limit k item r.items) ≡ some item
started-has k item r v =
    subst (λ l. lookup k (started l k item r.items) ≡ some item) (omega arith)
      (lookup-started_self (r.limit - 1) k item r.items v.unique)

event_size :
    (now : String) (e : RunEvent) (r : RunRegistry) (o : Option Item)
    → IsValid r
    → lookup e.run_id r.items ≡ o
    → size (apply_to now e r o) ≤ max r.limit (size r)
unfolding start
event_size now e r (some item) v h =
    omega (arith, put-size_known e.run_id (with_event e item) item r.items h)
event_size now e r none v h =
    let made = new_item now e.run_id "" "" in
    omega (
      arith,
      put-size_known e.run_id (with_event e made) made (started r.limit e.run_id made r.items)
          (started-has e.run_id made r v),
      length-trim r.limit (move_to_end e.run_id (put e.run_id made r.items)),
    )

cancel_size :
    (now k : String) (r : RunRegistry) (o : Option Item)
    → lookup k r.items ≡ o
    → size (cancel_at now k r o).1 ≤ size r
cancel_size now k r none h = omega arith
cancel_size now k r (some item) h =
    ground (arith, put-size_known k (with_cancel now item) item r.items h)

-- On a valid registry, starting a run leaves at most `limit` entries, however many there were; an
-- event leaves at most the larger of `limit` and the number there was; a request to cancel adds
-- none, and completing or failing a run adds at most one.
pub step_size : (c : Call) (r : RunRegistry) → IsValid r → size (step c r) ≤ size_bound c r
unfolding step complete fail finish
step_size (start_call now k query conversation) r v =
    unfold start in
    length-trim r.limit (move_to_end k (put k (new_item now k query conversation) r.items))
step_size (event_call now e) r v = event_size now e r (lookup e.run_id r.items) v refl
step_size (complete_call now k status result) r v =
    put-size k (with_finish now status result "" (or_bare now k (lookup k r.items))) r.items
step_size (fail_call now k error) r v =
    put-size k (with_finish now RunStatus.failed "" error (or_bare now k (lookup k r.items)))
      r.items
step_size (cancel_call now k) r v = cancel_size now k r (lookup k r.items) refl

-- Ending a run that has no entry adds one without dropping any, so a full registry then holds more
-- than `limit` entries.
pub finish_unknown_overflows :
    (now k : String) (status : RunStatus) (result error : String) (r : RunRegistry)
    → lookup k r.items ≡ none
    → size r ≡ r.limit
    → (finish now k status result error r).limit < size (finish now k status result error r)
unfolding finish
finish_unknown_overflows now k status result error r h full = ground (
  arith,
  length-put k (with_finish now status result error (or_bare now k (lookup k r.items))) r.items,
)
