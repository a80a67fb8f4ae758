-- ===== src/Registry/Items.antt =====
-- The ordered dictionary of run_registry.py: an association list, the oldest entry first, and the
-- run statuses and phases (shared/schema/run_schema.py, agent/observability/run_contracts.py).
use l2c.Common.{
  ℕ, String, Bool, Option, none, some, List, [], ◌∷◌, ◌++◌, ◌==◌, ltb, length, if◌then◌else◌,
}

pub data RunStatus : Type 0 where
  queued running waiting_input completed partial failed cancelled : RunStatus

-- `RunPhase`; two of its names are those of statuses.
pub data RunPhase : Type 0 where
  received database planning clarification collection validation persistence answering : RunPhase
  completed partial failed cancelled : RunPhase

-- One entry. An entry made by `_finish` for an unknown run has no status, phase or message before
-- the update. Times and results are the texts that are stored.
pub record Item : Type 0 where
  pub run_id : String
  pub query : String
  pub conversation_id : String
  pub status : Option RunStatus
  pub phase : Option RunPhase
  pub message : String
  pub created_at : String
  pub updated_at : String
  pub result : String
  pub error : String
  pub cancel_requested : Bool

abbrev pub Items : Type 0
Items = List (String × Item)

unfoldable pub lookup : String → Items → Option Item
lookup k [] = none
lookup k ((j, item) ∷ items) = let rest = lookup k items in if j == k then some item else rest

-- `items[k] = item`: a known key keeps its place.
unfoldable pub put : String → Item → Items → Items
put k item [] = (k, item) ∷ []
put k item ((j, old) ∷ items) =
    let rest = put k item items in if j == k then (k, item) ∷ items else (j, old) ∷ rest

unfoldable pub remove : String → Items → Items
remove k [] = []
remove k ((j, item) ∷ items) =
    let rest = remove k items in if j == k then items else (j, item) ∷ rest

abbrev pub at_end : String → Option Item → Items → Items
at_end k none items = items
at_end k (some item) items = remove k items ++ (k, item) ∷ []

unfoldable pub move_to_end : String → Items → Items
unfolding lookup remove
move_to_end k items = at_end k (lookup k items) items

-- `while len(items) > limit: items.popitem(last=False)`
unfoldable pub trim : ℕ → Items → Items
trim limit [] = []
trim limit (entry ∷ items) =
    let rest = trim limit items in
    if ltb limit (length (entry ∷ items)) then rest else entry ∷ items
