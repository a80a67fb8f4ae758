-- ===== src/Registry.antt =====
-- The registry of recent runs (agent/observability/run_registry.py).
pub mod Items
pub mod Runs
pub mod Keys
pub mod Bounds
pub mod Recent
pub mod Replies
