-- ===== src/Registry/Runs.antt =====
-- run_registry.py: the methods of `RunRegistry`. The lock makes each of them one step, so the
-- registry is passed through them; `now` is the clock's text.
use l2c.Common.{
  ℕ, ◌-◌, String, Bool, true, false, ◌&&◌, Option, none, some, List, [], map, reverse, ◌==◌, length,
  keep, drop, max, if◌then◌else◌,
}
use l2c.Common.Text.{is_empty}
use l2c.Registry.Items.{RunStatus, RunPhase, Item, Items, lookup, put, move_to_end, trim}

pub record RunRegistry : Type 0 where
  pub limit : ℕ
  pub items : Items

abbrev pub new : ℕ → RunRegistry
new limit = record { limit = max 10 limit; items = [] }

abbrev pub new_item : String → String → String → String → Item
new_item now run_id query conversation_id = record {
  run_id = run_id;
  query = query;
  conversation_id = conversation_id;
  status = some RunStatus.queued;
  phase = some RunPhase.received;
  message = "요청 대기 중";
  created_at = now;
  updated_at = now;
  result = "";
  error = "";
  cancel_requested = false;
}

unfoldable pub start : String → String → String → String → RunRegistry → RunRegistry
start now run_id query conversation_id r = record r {
  items =
      trim r.limit
        (move_to_end run_id (put run_id (new_item now run_id query conversation_id) r.items));
}

pub record RunEvent : Type 0 where
  pub run_id : String
  pub phase : RunPhase
  pub status : RunStatus
  pub message : String
  pub timestamp : String

abbrev pub with_event : RunEvent → Item → Item
with_event e item = record item {
  status = some e.status;
  phase = some e.phase;
  message = e.message;
  updated_at = e.timestamp;
}

-- The update of the entry that is there. For an unknown run, `start` returns a copy of the entry
-- it made, which is put in place of that entry and then updated.
abbrev pub apply_to : String → RunEvent → RunRegistry → Option Item → RunRegistry
apply_to now e r (some item) = record r { items = put e.run_id (with_event e item) r.items }
apply_to now e r none =
    let started = start now e.run_id "" "" r in
    record started {
      items = put e.run_id (with_event e (new_item now e.run_id "" "")) started.items;
    }

unfoldable pub apply_event : String → RunEvent → RunRegistry → RunRegistry
unfolding start
apply_event now e r = apply_to now e r (lookup e.run_id r.items)

abbrev pub or_planning : Option RunPhase → RunPhase
or_planning none = RunPhase.planning
or_planning (some p) = p

-- The phase that `_finish` stores.
unfoldable pub finish_phase : RunStatus → Option RunPhase → RunPhase
finish_phase RunStatus.completed p = RunPhase.completed
finish_phase RunStatus.partial p = RunPhase.partial
finish_phase RunStatus.failed p = RunPhase.failed
finish_phase RunStatus.cancelled p = RunPhase.cancelled
finish_phase _ p = or_planning p

abbrev pub is_cancelled : RunStatus → Bool
is_cancelled RunStatus.cancelled = true
is_cancelled _ = false

abbrev pub with_finish : String → RunStatus → String → String → Item → Item
with_finish now status result error item = record item {
  status = some status;
  phase = some (finish_phase status item.phase);
  updated_at = now;
  result = result;
  error = error;
  cancel_requested = is_cancelled status;
}

-- `setdefault`: the entry that is there, or a bare one.
abbrev pub or_bare : String → String → Option Item → Item
or_bare now run_id (some item) = item
or_bare now run_id none = record {
  run_id = run_id;
  query = "";
  conversation_id = "";
  status = none;
  phase = none;
  message = "";
  created_at = now;
  updated_at = "";
  result = "";
  error = "";
  cancel_requested = false;
}

unfoldable pub finish : String → String → RunStatus → String → String → RunRegistry → RunRegistry
unfolding finish_phase
finish now run_id status result error r = record r {
  items =
      put run_id (with_finish now status result error (or_bare now run_id (lookup run_id r.items)))
        r.items;
}

unfoldable pub complete : String → String → RunStatus → String → RunRegistry → RunRegistry
unfolding finish
complete now run_id status result r = finish now run_id status result "" r

unfoldable pub fail : String → String → String → RunRegistry → RunRegistry
unfolding finish
fail now run_id error r = finish now run_id RunStatus.failed "" error r

abbrev pub is_terminal : Option RunStatus → Bool
is_terminal (some RunStatus.completed) = true
is_terminal (some RunStatus.partial) = true
is_terminal (some RunStatus.failed) = true
is_terminal (some RunStatus.cancelled) = true
is_terminal _ = false

abbrev pub with_cancel : String → Item → Item
with_cancel now item = record item {
  cancel_requested = true;
  message = "취소 요청을 처리하고 있습니다.";
  updated_at = now;
}

abbrev pub cancel_at : String → String → RunRegistry → Option Item → Option Item × RunRegistry
cancel_at now run_id r none = (none, r)
cancel_at now run_id r (some item) = if is_terminal item.status then (some item, r) else (
  some (with_cancel now item),
  record r { items = put run_id (with_cancel now item) r.items },
)

unfoldable pub request_cancel : String → String → RunRegistry → Option Item × RunRegistry
request_cancel now run_id r = cancel_at now run_id r (lookup run_id r.items)

abbrev pub cancel_flag : Option Item → Bool
cancel_flag none = false
cancel_flag (some item) = item.cancel_requested

unfoldable pub is_cancel_requested : String → RunRegistry → Bool
is_cancel_requested run_id r = cancel_flag (lookup run_id r.items)

abbrev pub is_answered : Option RunStatus → Bool
is_answered (some RunStatus.completed) = true
is_answered (some RunStatus.partial) = true
is_answered (some RunStatus.waiting_input) = true
is_answered _ = false

-- `xs[-max(1, limit):]`
abbrev pub last_entries {ℓ} : {A : Type ℓ} → ℕ → List A → List A
last_entries limit xs = drop (length xs - max 1 limit) xs

abbrev pub values : Items → List Item
values items = map (λ (entry : String × Item). entry.1) items

unfoldable pub conversation_history : String → ℕ → RunRegistry → List Item
conversation_history conversation_id limit r =
    if is_empty conversation_id
    then []
    else last_entries limit (
        keep (λ item. item.conversation_id == conversation_id && is_answered item.status)
          (values r.items))

unfoldable pub get : String → RunRegistry → Option Item
get run_id r = lookup run_id r.items

unfoldable pub list_recent : ℕ → RunRegistry → List Item
list_recent limit r = reverse (last_entries limit (values r.items))
