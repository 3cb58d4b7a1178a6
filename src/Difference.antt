-- ===== src/Difference.antt =====
-- frappe_wms/services/difference.py: what a task found over or short of its plan.
pub mod Types
pub mod Record
pub mod Clear
pub mod Clearing
