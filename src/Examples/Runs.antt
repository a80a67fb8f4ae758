-- ===== src/Examples/Runs.antt =====
-- A registry with a run that a user has asked to cancel, and a full one.
use l2c.Common.{ℕ, ◌≤◌, ◌<◌, String, ◌≡◌, refl, true, ◌&&◌, [], ◌∷◌, arith, ◌==◌, if◌then◌else◌}
use l2c.Registry.Items.{RunStatus, Item, lookup, remove, trim}
use l2c.Registry.Runs.{
  RunRegistry, new_item, start, finish, request_cancel, get, values, list_recent,
  is_cancel_requested,
}
use l2c.Registry.Bounds.{start_call, step, IsValid, size, step_size, finish_unknown_overflows}
use l2c.Registry.Recent.{newest_first, list_recent-start}
use l2c.Registry.Replies.{
  makes_room, Kept, step_keeps_cancel, can_cancel, cancelled, request_cancel_lem,
}

abbrev asked : Item
asked = record (new_item "t0" "r1" "jobs" "c1") { cancel_requested = true }

abbrev busy : RunRegistry
busy = record { limit = 10; items = ("r1", asked) ∷ [] }

busy-IsValid : IsValid busy
unfolding lookup
busy-IsValid = record { roomy = omega arith; unique = (refl, tt) }

abbrev entry : String → String × Item
entry k = (k, new_item "t0" k "jobs" "c1")

abbrev full : RunRegistry
full = record {
  limit = 10;
  items =
      entry "r1"
      ∷ entry "r2"
      ∷ entry "r3"
      ∷ entry "r4"
      ∷ entry "r5"
      ∷ entry "r6"
      ∷ entry "r7"
      ∷ entry "r8"
      ∷ entry "r9"
      ∷ entry "r10"
      ∷ [];
}

step_size_example : size (step (start_call "t1" "r2" "jobs" "c1") busy) ≤ 10
step_size_example = step_size (start_call "t1" "r2" "jobs" "c1") busy busy-IsValid

finish_unknown_overflows_example : 10 < size (finish "t1" "r11" RunStatus.completed "done" "" full)
unfolding lookup finish
finish_unknown_overflows_example =
    finish_unknown_overflows "t1" "r11" RunStatus.completed "done" "" full refl refl

list_recent-start_example :
    (n : ℕ) × (list_recent 5 (start "t1" "r2" "jobs" "c1" busy)
      ≡ new_item "t1" "r2" "jobs" "c1" ∷ newest_first n (values (trim 9 (remove "r2" busy.items))))
list_recent-start_example = list_recent-start "t1" "r2" "jobs" "c1" 5 busy busy-IsValid

step_keeps_cancel_example :
    Kept
      (makes_room (start_call "t1" "r2" "jobs" "c1") busy)
      "r1"
      (step (start_call "t1" "r2" "jobs" "c1") busy)
unfolding is_cancel_requested lookup
step_keeps_cancel_example =
    step_keeps_cancel "r1" (start_call "t1" "r2" "jobs" "c1") busy busy-IsValid refl refl

request_cancel_lem_example :
    ((request_cancel "t1" "r2" full).0 ≡ get "r2" (request_cancel "t1" "r2" full).1)
    × (get "r2" (request_cancel "t1" "r2" full).1 ≡ (
        if "r2" == "r2" && can_cancel (lookup "r2" full.items)
        then cancelled "t1" (lookup "r2" full.items)
        else get "r2" full))
request_cancel_lem_example = request_cancel_lem "t1" "r2" "r2" full
