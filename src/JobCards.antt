-- ===== src/JobCards.antt =====
-- The job card queue (agent/runtime/job_card_queue.py).
pub mod Queue
pub mod Lifecycle
pub mod Select
pub mod Progress
pub mod Kept
pub mod Numbers
pub mod Counting
pub mod Marker
pub mod Request
