-- ===== src/Replenishment.antt =====
-- frappe_wms/services/replenishment.py: warehouse requests that refill a bin.
pub mod Types
pub mod Request
pub mod Target
pub mod Source
