-- ===== src/Planning.antt =====
-- The planning of collection steps (agent/graph/investigation_evidence_policy.py).
pub mod Contract
pub mod Steps
pub mod Sound
pub mod Validate
pub mod Validated
