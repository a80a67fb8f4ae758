-- ===== src/Detail.antt =====
-- The reading of a job's detail page: agent/runtime/detail_runtime.py.
pub mod Buffer
pub mod Bounds
pub mod Rendered
pub mod Overflow
pub mod Lines
pub mod Grouping
