-- ===== src/Investigation.antt =====
-- The investigation graph's collection loop (agent/graph/investigation_*.py).
pub mod State
pub mod Outcome
pub mod Nodes
pub mod Graph
pub mod Validity
pub mod Safety
pub mod Collected
pub mod Termination
pub mod Results
