-- ===== src/Worker.antt =====
-- The worker: its state (agent/runtime/worker_contracts.py), the routes of its graph
-- (agent/graph/workflow.py), the verification of replayed rules (agent/recipe/replay_runtime.py)
-- and the judgement of an action's effect (agent/graph/worker_transition.py).
pub mod State
pub mod Routing
pub mod Replay
pub mod Texts
pub mod History
pub mod Effect
pub mod Cycle
pub mod Decided
pub mod Rules
pub mod Judged
