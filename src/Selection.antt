-- ===== src/Selection.antt =====
-- The choice among the stored rules for a screen: agent/recipe/replay.py.
pub mod Stored
pub mod Log
pub mod Binding
pub mod Rules
pub mod Accounts
pub mod Chosen
