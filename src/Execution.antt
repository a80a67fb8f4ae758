-- ===== src/Execution.antt =====
-- The execution of a requested action: agent/graph/worker_execution.py with its guards, its policy,
-- its records and its effects, and agent/runtime/action_permissions.py.
pub mod Permission
pub mod Policy
pub mod Context
pub mod Dispatch
pub mod Effects
pub mod Run
pub mod Keeps
pub mod Numbered
pub mod Attached
pub mod Permitted
pub mod Errors
pub mod Contract
pub mod StateActions
pub mod Opened
