-- ===== src/CycleCount.antt =====
-- frappe_wms/services/cycle_count.py: the counts that the rules ask for.
pub mod Rules
pub mod Covered
pub mod Types
